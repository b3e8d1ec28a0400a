-- ===== src/Storage/Contests/Setup.antt =====
-- The statements of adapters/storage/postgres/contest.go that set up a contest: `CreateCountries`,
-- `CreateMatches` and `CreateGroupStandings`. The identifiers of the new rows are the server's, a
-- function of the row's number here; the answer of the query builder to an INSERT without rows, in
-- `CreateGroupStandings`, is an argument as well.
use wcwcpp_backend.Base.{
  ℕ, suc, String, Bool, true, not, Option, none, some, List, [], ◌∷◌, ◌++◌, ◌&&◌, ◌==◌, nat_eq,
  string_eq, any, lookup, Dict, if◌then◌else◌,
}
use wcwcpp_backend.Base.Int.{ℤ, pos, fits_int32}
use wcwcpp_backend.Entity.{Uuid, Country, Group, Match}
use wcwcpp_backend.Rows.{Db, CountryRow, MatchRow, GroupStandingRow}
use wcwcpp_backend.Sql.{
  Action, Done, Result, ok, err, Error, pure, fail, exec, query, insert_rows, ◌>>=◌,
}
use wcwcpp_backend.Sql.Clash.{
  duplicate_key, missing_key, out_of_range, invalid_uuid, too_long, is_longer, first_broken,
}
use wcwcpp_backend.Storage.Search.{country_map, get_country_code_to_id_map}

unfoldable pub country_error : CountryRow → List CountryRow → Option Error
country_error c rows = first_broken (
    (is_longer c.code 3, too_long "3")
    ∷ (is_longer c.full_name 255, too_long "255")
    ∷ (any (λ d. d.id == c.id) rows, duplicate_key)
    ∷ (any (λ d. d.full_name == c.full_name) rows, duplicate_key)
    ∷ [])

-- ON CONFLICT (code) DO NOTHING.
abbrev pub add_countries :
    (ℕ → Uuid) → ℕ → List Country → List CountryRow → Result (List CountryRow)
add_countries ids n [] rows = ok rows
add_countries ids n (c ∷ cs) rows =
    let row : CountryRow = record { id = ids n; code = c.code; full_name = c.full_name } in
    let skipped = add_countries ids (suc n) cs rows in
    let added = add_countries ids (suc n) cs (rows ++ row ∷ []) in
    if any (λ d. d.code == c.code) rows
    then (if is_longer c.code 3
        then err (too_long "3")
        else if is_longer c.full_name 255
        then err (too_long "255")
        else skipped)
    else elim (country_error row rows) [ none ↦ added | some e ↦ err e ]

abbrev pub set_countries : Db → Result (List CountryRow) → Result (Done × Db)
set_countries db (ok rows) = ok (tt, record db { countries = rows })
set_countries db (err e) = err e

unfoldable pub create_countries : (ℕ → Uuid) → List Country → Action Done
unfolding country_error
create_countries ids [] = pure tt
create_countries ids (c ∷ cs) =
    exec (λ db. set_countries db (add_countries ids 0 (c ∷ cs) db.countries))

-- A country's identifier as a parameter of the statement: a code that the map does not have gives
-- the empty text, which the server does not read as a UUID.
abbrev pub uuid_param : Dict String Uuid → Option Country → Result (Option Uuid)
uuid_param codes none = ok none
uuid_param codes (some c) = elim (lookup c.code codes) [
  | some id ↦ ok (some id)
  | none ↦ err invalid_uuid
]

abbrev pub int_param : Option ℤ → Bool
int_param none = true
int_param (some z) = fits_int32 z

abbrev pub match_row : Uuid → Uuid → Match → Option Uuid → Option Uuid → MatchRow
match_row id contest m c1 c2 = record {
  id = id;
  contest_id = contest;
  round = m.round;
  round_index = m.round_index;
  country1_id = c1;
  country2_id = c2;
  country1_goals = none;
  country2_goals = none;
  country1_penalties = none;
  country2_penalties = none;
  country1_conduct_score = none;
  country2_conduct_score = none;
}

abbrev pub made_match : Dict String Uuid → Uuid → Uuid → Match → Result MatchRow
made_match codes id contest m =
    if fits_int32 m.round && int_param m.round_index
    then elim (uuid_param codes m.country1) [
      | err e ↦ err e
      | ok c1 ↦ (elim (uuid_param codes m.country2) [
        | err e ↦ err e
        | ok c2 ↦ ok (match_row id contest m c1 c2)
      ])
    ]
    else err out_of_range

abbrev pub cons_match : Result MatchRow → Result (List MatchRow) → Result (List MatchRow)
cons_match (err e) rest = err e
cons_match (ok m) (err e) = err e
cons_match (ok m) (ok ms) = ok (m ∷ ms)

abbrev pub made_matches :
    Dict String Uuid → (ℕ → Uuid) → ℕ → Uuid → List Match → Result (List MatchRow)
made_matches codes ids n contest [] = ok []
made_matches codes ids n contest (m ∷ ms) =
    cons_match (made_match codes (ids n) contest m) (made_matches codes ids (suc n) contest ms)

abbrev pub is_country : Db → Option Uuid → Bool
is_country db none = true
is_country db (some id) = any (λ c. c.id == id) db.countries

unfoldable pub match_error : Db → MatchRow → List MatchRow → Option Error
match_error db m rows = first_broken (
    (any (λ n. n.id == m.id) rows, duplicate_key)
    ∷ (not (any (λ c. c.id == m.contest_id) db.contests), missing_key)
    ∷ (not (is_country db m.country1_id && is_country db m.country2_id), missing_key)
    ∷ [])

abbrev pub set_matches : Db → Result (List MatchRow) → Result (Done × Db)
set_matches db (ok rows) = ok (tt, record db { matches = rows })
set_matches db (err e) = err e

unfoldable pub insert_matches : Result (List MatchRow) → Db → Result (Done × Db)
unfolding match_error
insert_matches (err e) db = err e
insert_matches (ok new) db = set_matches db (insert_rows (match_error db) new db.matches)

unfoldable pub create_matches : (ℕ → Uuid) → Uuid → List Match → Action Done
create_matches ids contest [] = pure tt
create_matches ids contest (m ∷ ms) = do
  codes ← query country_map
  exec (insert_matches (made_matches codes ids 0 contest (m ∷ ms)))

-- The columns that the statement does not name take their defaults.
abbrev pub new_standing : Uuid → Uuid → String → GroupStandingRow
new_standing contest country letter = record {
  contest_id = contest;
  country_id = country;
  letter = letter;
  points = pos 0;
  wins = pos 0;
  draws = pos 0;
  losses = pos 0;
  gf = pos 0;
  ga = pos 0;
  gd = pos 0;
  cs = pos 0;
  rank = none;
  is_third_place_qualifier = none;
}

-- `if !ok { continue }`.
abbrev pub country_standings :
    Dict String Uuid → Uuid → String → List Country → List GroupStandingRow
country_standings codes contest letter [] = []
country_standings codes contest letter (c ∷ cs) =
    let rest = country_standings codes contest letter cs in
    elim (lookup c.code codes) [ none ↦ rest | some id ↦ new_standing contest id letter ∷ rest ]

unfoldable pub new_standings : Dict String Uuid → Uuid → List Group → List GroupStandingRow
new_standings codes contest [] = []
new_standings codes contest (g ∷ gs) =
    country_standings codes contest g.letter g.countries ++ new_standings codes contest gs

abbrev pub same_standing : GroupStandingRow → GroupStandingRow → Bool
same_standing r s = s.contest_id == r.contest_id && s.country_id == r.country_id

unfoldable pub group_standing_error : Db → GroupStandingRow → List GroupStandingRow → Option Error
group_standing_error db r rows = first_broken (
    (is_longer r.letter 1, too_long "1")
    ∷ (any (same_standing r) rows, duplicate_key)
    ∷ (not (any (λ c. c.id == r.contest_id) db.contests), missing_key)
    ∷ (not (any (λ c. c.id == r.country_id) db.countries), missing_key)
    ∷ [])

abbrev pub set_group_standings : Db → Result (List GroupStandingRow) → Result (Done × Db)
set_group_standings db (ok rows) = ok (tt, record db { group_standings = rows })
set_group_standings db (err e) = err e

unfoldable pub insert_standings : List GroupStandingRow → Db → Result (Done × Db)
unfolding group_standing_error
insert_standings new db =
    set_group_standings db (insert_rows (group_standing_error db) new db.group_standings)

abbrev pub exec_insert_standings : Error → List GroupStandingRow → Action Done
exec_insert_standings without_rows [] = fail without_rows
exec_insert_standings without_rows (r ∷ rs) = exec (insert_standings (r ∷ rs))

unfoldable pub create_group_standings : Error → Uuid → List Group → Action Done
create_group_standings without_rows contest [] = pure tt
create_group_standings without_rows contest (g ∷ gs) = do
  codes ← get_country_code_to_id_map
  exec_insert_standings without_rows (new_standings codes contest (g ∷ gs))
