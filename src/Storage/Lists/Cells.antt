-- ===== src/Storage/Lists/Cells.antt =====
-- The map of group picks, row by row.
use mathlib.Core.Path.{subst}
use wcwcpp_backend.Base.{
  append_assoc, ◌≡◌, refl, sym, ◌∙◌, arith, String, Bool, false, Bool-cases, inl, inr, Option, none,
  some, List, [], ◌∷◌, ◌++◌, map, All, ◌==◌, ==_iff, ==_refl, ==_comm, string_eq, select, Dict,
  lookup, insert, if◌then◌else◌, append-nil,
}
use wcwcpp_backend.Entity.{GroupPick, GroupPickEntry}
use wcwcpp_backend.Storage.Lists.Groups.{
  PickRow, entry_of, add_entry, no_entries, Gathered, gather_row, gather, picks_in,
}

pub lookup-insert :
    {V : Type 0} (l k : String) (v : V) (d : Dict String V)
    → lookup l (insert k v d) ≡ (if l == k then some v else lookup l d)
lookup-insert l k v [] = refl
lookup-insert l k v ((j, w) ∷ d) = elim (Bool-cases (k == j)) [
  | inl t ↦ let same : k ≡ j = (==_iff k j).0 t in rw (same, ==_refl j) (ground arith)
  | inr f ↦
      rw (f, lookup-insert l k v d) (let n = ==_iff l j in let m = ==_iff l k in ground (arith, f))
]

abbrev has : String → PickRow → Bool
has l (p, c) = p.letter == l

-- The entries of a letter among rows.
abbrev pub entries_of : String → List PickRow → List GroupPickEntry
entries_of l rows = map entry_of (select (has l) rows)

entries_of-last :
    (l : String) (rows : List PickRow) (r : PickRow)
    → entries_of l (rows ++ r ∷ []) ≡ entries_of l rows ++ (if has l r then entry_of r ∷ [] else [])
entries_of-last l [] r = (ground arith)
entries_of-last l (x ∷ xs) r = (let ih = entries_of-last l xs r in ground arith)

-- What the map holds for a letter after some rows.
abbrev pub Cell : String → List PickRow → Option GroupPick → Type 0
Cell l done none = entries_of l done ≡ []
Cell l done (some pick) = (pick.letter ≡ l) × (pick.entries ≡ entries_of l done)

abbrev pub IsGathered : List PickRow → Gathered → Type 0
IsGathered done g = (l : String) → Cell l done (lookup l g.grouped)

Cell-other :
    (l : String) (done : List PickRow) (r : PickRow) (o : Option GroupPick)
    → has l r ≡ false
    → Cell l done o
    → Cell l (done ++ r ∷ []) o
Cell-other l done r none n h = rw (entries_of-last l done r, n, h) refl
Cell-other l done r (some pick) n (a, b) =
    (a, b ∙ sym (rw (entries_of-last l done r, n) (append-nil _)))

Cell-same :
    (done : List PickRow) (r : PickRow) (pick : GroupPick)
    → Cell (r.0.letter) done (some pick)
    → Cell (r.0.letter) (done ++ r ∷ []) (some (add_entry r pick))
Cell-same done (p, c) pick (a, b) =
    (a, rw (b, entries_of-last p.letter done (p, c), ==_refl p.letter) refl)

Cell-insert :
    (l : String) (done : List PickRow) (r : PickRow) (pick : GroupPick) (d : Dict String GroupPick)
    → Cell (r.0.letter) (done ++ r ∷ []) (some pick)
    → Cell l done (lookup l d)
    → Cell l (done ++ r ∷ []) (lookup l (insert r.0.letter pick d))
Cell-insert l done (p, c) pick d new old =
    rw (lookup-insert l p.letter pick d) (elim (Bool-cases (l == p.letter)) [
      | inl t ↦ rw (t, (==_iff l p.letter).0 t) new
      | inr f ↦ rw f (Cell-other l done (p, c) (lookup l d) (==_comm p.letter l ∙ f) old)
    ])

gather_row-IsGathered :
    (done : List PickRow) (r : PickRow) (g : Gathered)
    → IsGathered done g
    → IsGathered (done ++ r ∷ []) (gather_row r g)
gather_row-IsGathered done (p, c) g h = go (lookup p.letter g.grouped) (h p.letter)
  where
    go :
        (o : Option GroupPick)
        → Cell p.letter done o
        → IsGathered (done ++ (p, c) ∷ []) (elim o as (λ _. Gathered) [
          | some pick ↦ record g { grouped = insert p.letter (add_entry (p, c) pick) g.grouped }
          | none ↦ record {
            grouped = insert p.letter (add_entry (p, c) (no_entries p.letter)) g.grouped;
            order = g.order ++ p.letter ∷ [];
          }
        ])
    go none k l =
        Cell-insert l done (p, c) _ g.grouped
          (Cell-same done (p, c) (no_entries p.letter) (refl, sym k)) (h l)
    go (some pick) k l = Cell-insert l done (p, c) _ g.grouped (Cell-same done (p, c) pick k) (h l)

pub gather-IsGathered :
    (rows done : List PickRow) (g : Gathered)
    → IsGathered done g
    → IsGathered (done ++ rows) (gather rows g)
gather-IsGathered [] done g h = rw (append-nil done) h
gather-IsGathered (r ∷ rs) done g h =
    subst (λ all. IsGathered all (gather rs (gather_row r g))) (append_assoc done (r ∷ []) rs)
      (gather-IsGathered rs (done ++ r ∷ []) (gather_row r g) (gather_row-IsGathered done r g h))

pub picks_in-entries :
    (rows : List PickRow) (letters : List String) (d : Dict String GroupPick)
    → ((l : String) → Cell l rows (lookup l d))
    → All (λ pick. pick.entries ≡ entries_of pick.letter rows) (picks_in letters d)
picks_in-entries rows [] d h = tt
picks_in-entries rows (l ∷ ls) d h = go (lookup l d) (h l) (picks_in-entries rows ls d h)
  where
    P : GroupPick → Type 0
    P pick = pick.entries ≡ entries_of pick.letter rows

    go :
        (o : Option GroupPick)
        → Cell l rows o
        → All P (picks_in ls d)
        → All P (elim o [ some pick ↦ pick ∷ picks_in ls d | none ↦ picks_in ls d ])
    go none k rest = rest
    go (some pick) (a, b) rest = (rw a b, rest)
