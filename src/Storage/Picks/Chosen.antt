-- ===== src/Storage/Picks/Chosen.antt =====
-- The letters and the rows of a submission of group picks.
use wcwcpp_backend.Base.{
  String, ◌≡◌, refl, sym, ap, true, Option, none, some, List, [], ◌∷◌, ◌++◌, All, append-nil,
  append_assoc, ==_comm, arith, any, lookup, Dict, ◌==◌, nat_eq, string_eq, ◌||◌, ==_iff,
}
use wcwcpp_backend.Base.Int.{to_int32}
use wcwcpp_backend.Entity.{Uuid, GroupPick, GroupPickEntry}
use wcwcpp_backend.Rows.{Db, GroupPickRow}
use wcwcpp_backend.Sql.{ok, Error, insert_rows}
use wcwcpp_backend.Sql.Post.{
  Yields, bind-Yields, or_fail-Yields, pure-Yields, weaken-Yields, fact-Yields,
}
use wcwcpp_backend.Storage.Picks.{letters_from, entry_rows, pick_rows}

-- Rows that were inserted stand behind the others.
pub insert_rows-Then :
    {A : Type 0} (check : A → List A → Option Error) (rows t u : List A)
    → insert_rows check rows t ≡ ok u
    → u ≡ t ++ rows
insert_rows-Then check [] t u e = ground (arith, e, append-nil t)
insert_rows-Then check (r ∷ rows) t u e =
    ground (arith, e, insert_rows-Then check rows (t ++ r ∷ []) u, append_assoc t (r ∷ []) rows)

any-flip : (x : String) (seen : List String) → any (λ l. l == x) seen ≡ any (λ l. x == l) seen
any-flip x [] = refl
any-flip x (l ∷ seen) = rw (==_comm l x) (ap (◌||◌ (x == l)) (any-flip x seen))

any-seen :
    (x y : String) (seen : List String)
    → (x == y) ≡ true
    → any (λ l. l == y) seen ≡ any (λ l. x == l) seen
any-seen x y seen e = rw (sym ((==_iff x y).0 e)) (any-flip x seen)

-- A letter is among the letters of the picks, or was seen before.
pub letters_from-any :
    (x : String) (seen : List String) (picks : List GroupPick)
    → (any (λ l. x == l) (letters_from seen picks) || any (λ l. x == l) seen)
      ≡ (any (λ p. x == p.letter) picks || any (λ l. x == l) seen)
letters_from-any x seen [] = refl
letters_from-any x seen (p ∷ picks) = ground (
  arith,
  letters_from-any x seen picks,
  letters_from-any x (p.letter ∷ seen) picks,
  any-seen x p.letter seen,
)

-- The row that an entry stands for.
abbrev pub chosen_row : Uuid → Uuid → GroupPick → GroupPickEntry → Uuid → GroupPickRow
chosen_row user contest pick e country = record {
  user_id = user;
  contest_id = contest;
  country_id = country;
  letter = pick.letter;
  place = to_int32 e.place;
  extra_qualifier = pick.extra_qualifier;
}

module _ (codes : Dict String Uuid) (user contest : Uuid) where
  abbrev pub row_of : GroupPick → GroupPickEntry → Option Uuid → List GroupPickRow
  row_of pick e none = []
  row_of pick e (some country) = chosen_row user contest pick e country ∷ []

  abbrev pub chosen_entries : GroupPick → List GroupPickEntry → List GroupPickRow
  chosen_entries pick [] = []
  chosen_entries pick (e ∷ es) =
      row_of pick e (lookup e.country.code codes) ++ chosen_entries pick es

  -- The rows of a submission: one for each entry.
  abbrev pub chosen : List GroupPick → List GroupPickRow
  chosen [] = []
  chosen (p ∷ picks) = chosen_entries p p.entries ++ chosen picks

  -- The country of every entry is known.
  abbrev pub HasCountry : GroupPickEntry → Type 0
  HasCountry e = (country : Uuid) × (lookup e.country.code codes ≡ some country)

  abbrev pub AreKnown : List GroupPick → Type 0
  AreKnown picks = All (λ p. All HasCountry p.entries) picks

  entry_rows-Yields :
      (P : Db → Type 0) (pick : GroupPick) (es : List GroupPickEntry)
      → Yields P
          (entry_rows codes user contest pick es)
          (λ rows db. P db × ((rows ≡ chosen_entries pick es) × All HasCountry es))
  unfolding entry_rows
  entry_rows-Yields P pick [] =
      weaken-Yields (λ db p. (p, (refl, tt))) (λ _ db p. p) (pure-Yields [])
  entry_rows-Yields P pick (e ∷ es) =
      bind-Yields (λ c db. P db × (lookup e.country.code codes ≡ some c)) (or_fail-Yields P _ _)
        λ c. fact-Yields λ found.
          bind-Yields (λ rest db. P db × ((rest ≡ chosen_entries pick es) × All HasCountry es))
            (entry_rows-Yields P pick es)
            λ rest. fact-Yields λ (more, known).
              weaken-Yields (λ db p. (p, (rw (found, more) refl, ((c, found), known))))
                (λ _ db p. p) (pure-Yields _)

  pub pick_rows-Yields :
      (P : Db → Type 0) (picks : List GroupPick)
      → Yields P
          (pick_rows codes user contest picks)
          (λ rows db. P db × ((rows ≡ chosen picks) × AreKnown picks))
  unfolding pick_rows
  pick_rows-Yields P [] = weaken-Yields (λ db p. (p, (refl, tt))) (λ _ db p. p) (pure-Yields [])
  pick_rows-Yields P (p ∷ picks) =
      bind-Yields
        (λ rows db. P db × ((rows ≡ chosen_entries p p.entries) × All HasCountry p.entries))
        (entry_rows-Yields P p p.entries)
        λ rows. fact-Yields λ (first_rows, first_known).
          bind-Yields (λ rest db. P db × ((rest ≡ chosen picks) × AreKnown picks))
            (pick_rows-Yields P picks)
            λ rest. fact-Yields λ (more, known).
              weaken-Yields (λ db q. (q, (rw (first_rows, more) refl, (first_known, known))))
                (λ _ db q. q) (pure-Yields _)
