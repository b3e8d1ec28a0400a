-- ===== src/Storage/Tally/Start.antt =====
-- The group table of a new contest.
use wcwcpp_backend.Base.{
  ◌≡◌, refl, sym, ◌∙◌, Option, none, some, String, List, [], ◌∷◌, ◌++◌, All, lookup, Dict,
  string_eq,
}
use wcwcpp_backend.Base.Int.{int_eq}
use wcwcpp_backend.Entity.{Uuid, Country, Group}
use wcwcpp_backend.Rows.{Db, GroupStandingRow}
use wcwcpp_backend.Sql.{World, Result, ok, err, Error, insert_rows}
use wcwcpp_backend.Sql.Post.{
  Yields, Then, Yields_ok, bind-Yields, query-Yields, exec-Yields, fail-Yields, weaken-Yields,
  pure-Yields,
}
use wcwcpp_backend.Storage.Tally.{IsTallied, columns, no_share}
use wcwcpp_backend.Storage.Search.{get_country_code_to_id_map}
use wcwcpp_backend.Storage.Contests.Setup.{
  create_group_standings, insert_standings, group_standing_error, new_standings, country_standings,
  new_standing, exec_insert_standings, set_group_standings,
}
use wcwcpp_backend.Storage.Tally.Setup.{All-append, insert_rows-keeps, IsUnplayed, total-no_share}

-- A row of the contest with nothing counted.
abbrev IsZero : Uuid → GroupStandingRow → Type 0
IsZero contest r = (r.contest_id ≡ contest) × (columns r ≡ no_share)

country_standings-IsZero :
    (codes : Dict String Uuid) (contest : Uuid) (letter : String) (cs : List Country)
    → All (IsZero contest) (country_standings codes contest letter cs)
country_standings-IsZero codes contest letter [] = tt
country_standings-IsZero codes contest letter (c ∷ cs) =
    go (lookup c.code codes) (country_standings-IsZero codes contest letter cs)
  where
    go :
        (o : Option Uuid)
        → All (IsZero contest) (country_standings codes contest letter cs)
        → All (IsZero contest) (elim o as (λ _. List GroupStandingRow) [
          | none ↦ country_standings codes contest letter cs
          | some id ↦ new_standing contest id letter ∷ country_standings codes contest letter cs
        ])
    go none h = h
    go (some id) h = ((refl, refl), h)

new_standings-IsZero :
    (codes : Dict String Uuid) (contest : Uuid) (gs : List Group)
    → All (IsZero contest) (new_standings codes contest gs)
unfolding new_standings
new_standings-IsZero codes contest [] = tt
new_standings-IsZero codes contest (g ∷ gs) =
    All-append (IsZero contest) (country_standings codes contest g.letter g.countries) _
      (country_standings-IsZero codes contest g.letter g.countries)
      (new_standings-IsZero codes contest gs)

-- The tally holds in a table of the same matches.
abbrev IsStillTallied : Db → Db → Type 0
IsStillTallied before after = All (IsTallied after.matches) after.group_standings

module _ (contest : Uuid) (before : Db) (unplayed : All (IsUnplayed contest) before.matches)
    (kept : All (IsTallied before.matches) before.group_standings) where
  insert_standings-tally :
      (new : List GroupStandingRow)
      → All (IsZero contest) new
      → Then (λ _ db. IsStillTallied before db) (insert_standings new before)
  unfolding insert_standings group_standing_error
  insert_standings-tally new zeros =
      go (insert_rows (group_standing_error before) new before.group_standings) refl
    where
      tallied :
          (rows : List GroupStandingRow) (r : GroupStandingRow)
          → IsZero contest r
          → All (IsTallied before.matches) rows
          → All (IsTallied before.matches) (rows ++ r ∷ [])
      tallied rows r (k, z) h =
          All-append (IsTallied before.matches) rows (r ∷ []) h
            (z ∙ sym (rw k (total-no_share contest r.country_id before.matches unplayed)), tt)

      go :
          (r : Result (List GroupStandingRow))
          → insert_rows (group_standing_error before) new before.group_standings ≡ r
          → Then (λ _ db. IsStillTallied before db) (set_group_standings before r)
      go (err x) e = tt
      go (ok rows) e =
          insert_rows-keeps (All (IsTallied before.matches)) (IsZero contest)
            (group_standing_error before) tallied new before.group_standings zeros kept e

  exec_insert-Yields :
      (without_rows : Error) (new : List GroupStandingRow)
      → All (IsZero contest) new
      → Yields
          (λ db. db ≡ before)
          (exec_insert_standings without_rows new)
          (λ _ db. IsStillTallied before db)
  exec_insert-Yields without_rows [] zeros = fail-Yields _ _ without_rows
  exec_insert-Yields without_rows (r ∷ rs) zeros =
      exec-Yields _ λ db e. rw e (insert_standings-tally (r ∷ rs) zeros)

  create_group_standings-Yields :
      (without_rows : Error) (gs : List Group)
      → Yields
          (λ db. db ≡ before)
          (create_group_standings without_rows contest gs)
          (λ _ db. IsStillTallied before db)
  unfolding create_group_standings get_country_code_to_id_map
  create_group_standings-Yields without_rows [] =
      weaken-Yields (λ db e. rw e kept) (λ _ db p. p) (pure-Yields tt)
  create_group_standings-Yields without_rows (g ∷ gs) =
      bind-Yields (λ _ db. db ≡ before) (query-Yields _ (λ db e. e))
        λ codes. exec_insert-Yields without_rows _ (new_standings-IsZero codes contest (g ∷ gs))

-- If every group standing holds what its country's played group matches give, and no match of the
-- contest counts for anybody yet, then every one does after a successful CreateGroupStandings.
pub create_group_standings-IsTallied :
    (without_rows : Error) (contest : Uuid) (gs : List Group) (w : World) {w' : World}
    → All (IsUnplayed contest) w.db.matches
    → All (IsTallied w.db.matches) w.db.group_standings
    → create_group_standings without_rows contest gs w ≡ (ok tt, w')
    → All (IsTallied w'.db.matches) w'.db.group_standings
create_group_standings-IsTallied without_rows contest gs w unplayed kept e =
    Yields_ok {R = λ _ db. IsStillTallied w.db db}
      (create_group_standings-Yields contest w.db unplayed kept without_rows gs) w refl e
