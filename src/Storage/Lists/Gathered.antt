-- ===== src/Storage/Lists/Gathered.antt =====
-- Group picks gathered by letter.
use Prim.Native.Nat.{Ordering}
use wcwcpp_backend.Base.{
  any, ◌||◌, ◌≢◌, ◌≡◌, refl, ap, ◌∙◌, arith, String, Bool, true, false, Bool-cases, inl, inr,
  Option, none, some, List, [], ◌∷◌, ◌++◌, All, ◌==◌, ==_iff, ==_comm, string_eq, Dict, lookup,
  insert,
}
use wcwcpp_backend.Entity.{Uuid, GroupPick}
use wcwcpp_backend.Rows.{Db}
use wcwcpp_backend.Sql.{World, ok}
use wcwcpp_backend.Sql.Order.{order_by, insert_by}
use wcwcpp_backend.Sql.Post.{query-Yields, Yields_ok}
use wcwcpp_backend.Storage.Lists.Groups.{
  PickRow, add_entry, no_entries, Gathered, gather_row, gather, picks_in, letter_before,
  group_picks_of, place_before, own_group_picks, list_group_picks,
}
use wcwcpp_backend.Storage.Lists.Cells.{
  lookup-insert, entries_of, Cell, IsGathered, gather-IsGathered, picks_in-entries,
}

-- Every key of the map is in the order.
abbrev IsKnown : Gathered → Type 0
IsKnown g =
    (l : String) (pick : GroupPick)
    → lookup l g.grouped ≡ some pick
    → any (λ k. k == l) g.order ≡ true

any-append_left :
    (p : String → Bool) (xs ys : List String) → any p xs ≡ true → any p (xs ++ ys) ≡ true
any-append_left p [] ys h = absurd (cc)
any-append_left p (x ∷ xs) ys h = (let ih = any-append_left p xs ys in ground arith)

any-append_last :
    (p : String → Bool) (xs : List String) (y : String) → p y ≡ true → any p (xs ++ y ∷ []) ≡ true
any-append_last p [] y h = rw h refl
any-append_last p (x ∷ xs) y h = (let ih = any-append_last p xs y h in ground arith)

gather_row-IsKnown : (r : PickRow) (g : Gathered) → IsKnown g → IsKnown (gather_row r g)
gather_row-IsKnown (p, c) g h = go (lookup p.letter g.grouped) refl
  where
    other :
        (l : String) (pick new : GroupPick)
        → (l == p.letter) ≡ false
        → lookup l (insert p.letter new g.grouped) ≡ some pick
        → any (λ k. k == l) g.order ≡ true
    other l pick new n e =
        h l pick (let eq = lookup-insert l p.letter new g.grouped in ground (arith, e, eq, n))

    go :
        (o : Option GroupPick)
        → lookup p.letter g.grouped ≡ o
        → IsKnown (elim o as (λ _. Gathered) [
          | some pick ↦ record g { grouped = insert p.letter (add_entry (p, c) pick) g.grouped }
          | none ↦ record {
            grouped = insert p.letter (add_entry (p, c) (no_entries p.letter)) g.grouped;
            order = g.order ++ p.letter ∷ [];
          }
        ])
    go none e l pick found = elim (Bool-cases (l == p.letter)) [
      | inl t ↦ any-append_last (λ k. k == l) g.order p.letter (==_comm p.letter l ∙ t)
      | inr n ↦ any-append_left (λ k. k == l) g.order _ (other l pick _ n found)
    ]
    go (some q) e l pick found = elim (Bool-cases (l == p.letter)) [
      | inl t ↦ h l q (rw ((==_iff l p.letter).0 t) e)
      | inr n ↦ other l pick _ n found
    ]

gather-IsKnown : (rows : List PickRow) (g : Gathered) → IsKnown g → IsKnown (gather rows g)
gather-IsKnown [] g h = h
gather-IsKnown (r ∷ rs) g h = gather-IsKnown rs (gather_row r g) (gather_row-IsKnown r g h)

any-insert_by :
    (p : String → Bool) (x : String) (xs : List String)
    → any p (insert_by letter_before x xs) ≡ (p x || any p xs)
any-insert_by p x [] = refl
any-insert_by p x (y ∷ ys) = (let ih = any-insert_by p x ys in ground arith)

any-order_by : (p : String → Bool) (xs : List String) → any p (order_by letter_before xs) ≡ any p xs
unfolding order_by
any-order_by p [] = refl
any-order_by p (x ∷ xs) =
    any-insert_by p x (order_by letter_before xs) ∙ ap (λ b. p x || b) (any-order_by p xs)

-- A letter in the order with a pick in the map is shown.
picks_in-any :
    (l : String) (rows : List PickRow) (letters : List String) (d : Dict String GroupPick)
    (pick : GroupPick)
    → ((k : String) → Cell k rows (lookup k d))
    → lookup l d ≡ some pick
    → any (λ k. k == l) letters ≡ true
    → any (λ q. q.letter == l) (picks_in letters d) ≡ true
picks_in-any l rows [] d pick h e k = absurd (cc)
picks_in-any l rows (m ∷ ms) d pick h e k =
    go (lookup m d) refl (h m) (picks_in-any l rows ms d pick h e)
  where
    go :
        (o : Option GroupPick)
        → lookup m d ≡ o
        → Cell m rows o
        → (any (λ k. k == l) ms ≡ true → any (λ q. q.letter == l) (picks_in ms d) ≡ true)
        → any
            (λ q. q.letter == l)
            (elim o as (λ _. List GroupPick) [ some q ↦ q ∷ picks_in ms d | none ↦ picks_in ms d ])
          ≡ true
    go none none_m cell rest = elim (Bool-cases (m == l)) [
      | inl t ↦ (let same = (==_iff m l).0 t in absurd (cc))
      | inr n ↦ rest (ground (arith, k, n))
    ]
    go (some q) some_m (a, b) rest = elim (Bool-cases (m == l)) [
      | inl t ↦ rw (a, t) refl
      | inr n ↦ (let later = rest (ground (arith, k, n)) in ground (arith, later))
    ]

-- What a list of picks is to rows: each pick has exactly the entries of its letter's rows, in the
-- order of the rows, and each letter that has rows has a pick.
abbrev pub ArePicksOf : List PickRow → List GroupPick → Type 0
ArePicksOf rows picks =
    All (λ pick. pick.entries ≡ entries_of pick.letter rows) picks
    × ((l : String) → entries_of l rows ≢ [] → any (λ pick. pick.letter == l) picks ≡ true)

group_picks_of-ArePicksOf : (rows : List PickRow) → ArePicksOf rows (group_picks_of rows)
unfolding group_picks_of
group_picks_of-ArePicksOf rows = (
  picks_in-entries rows (order_by letter_before (gather rows start).order)
      (gather rows start).grouped cells,
  λ l some_rows. shown l some_rows (lookup l (gather rows start).grouped) refl (cells l),
)
  where
    start : Gathered
    start = record { grouped = []; order = [] }

    cells : IsGathered rows (gather rows start)
    cells = gather-IsGathered rows [] start (λ l. refl)

    shown :
        (l : String)
        → entries_of l rows ≢ []
        → (o : Option GroupPick) → lookup l (gather rows start).grouped ≡ o
        → Cell l rows o
        → any
            (λ pick. pick.letter == l)
            (picks_in
              (order_by letter_before (gather rows start).order)
              (gather rows start).grouped)
          ≡ true
    shown l n none e c = absurd (n c)
    shown l n (some pick) e c =
        picks_in-any l rows (order_by letter_before (gather rows start).order)
          (gather rows start).grouped pick cells e
          (any-order_by (λ k. k == l) (gather rows start).order
            ∙ gather-IsKnown rows start (λ k q h. absurd (cc)) l pick e)

-- ListGroupPicks gathers the user's rows of the contest, in the order of the query: each pick has
-- exactly the entries of the rows with its letter, in that order, and each letter with rows has a pick.
pub list_group_picks-ArePicksOf :
    (collation : String → String → Ordering) (user contest : Uuid) (w : World) {w' : World}
    {picks : List GroupPick}
    → list_group_picks collation user contest w ≡ (ok picks, w')
    → ArePicksOf
        (order_by (place_before collation) (own_group_picks collation user contest w.db))
        picks
unfolding list_group_picks
list_group_picks-ArePicksOf collation user contest w {picks = picks} e =
    let rows =
      λ (db : Db). order_by (place_before collation) (own_group_picks collation user contest db) in
    Yields_ok {P = λ db. db ≡ w.db} {R = λ shown _. ArePicksOf (rows w.db) shown}
      (query-Yields _ λ db same. rw same (group_picks_of-ArePicksOf (rows w.db))) w refl e
