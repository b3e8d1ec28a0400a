-- ===== src/Storage/Search.antt =====
-- `Searcher` of adapters/storage/postgres/search.go, which every repository embeds.
pub mod Calm
use wcwcpp_backend.Base.{
  String, Option, none, some, List, [], ◌∷◌, ◌==◌, string_eq, select, Dict, insert, lookup, false,
}
use wcwcpp_backend.Entity.{Uuid, Contest, Subcontest, Country}
use wcwcpp_backend.Rows.{Db, ContestRow, SubcontestRow, CountryRow}
use wcwcpp_backend.Sql.{Action, ok, err, no_rows, query, query_one}

-- `if errors.Is(err, qrm.ErrNoRows) { return nil, nil }`.
abbrev pub absent_if_no_rows : {A B : Type 0} → (A → B) → Action A → Action (Option B)
absent_if_no_rows f m w =
    let (r, w') = m w in
    elim r [ ok a ↦ (ok (some (f a)), w') | err e ↦ (elim e [ no_rows ↦ ok none | x ↦ err x ], w') ]

abbrev pub contest_of_row : ContestRow → Contest
contest_of_row c = record {
  id = c.id;
  title = c.title;
  slug = c.slug;
  group_unlock_date = c.group_unlock_date;
  group_lock_date = c.group_lock_date;
  knockout_unlock_date = c.knockout_unlock_date;
  knockout_lock_date = c.knockout_lock_date;
  groups = [];
}

unfoldable pub get_contest_by_slug : String → Action (Option Contest)
get_contest_by_slug slug =
    absent_if_no_rows contest_of_row (query_one (λ db. select (λ c. c.slug == slug) db.contests))

abbrev pub subcontest_of_row : SubcontestRow → Subcontest
subcontest_of_row s = record {
  id = s.id;
  contest_id = s.contest_id;
  user_id = s.user_id;
  join_code = s.join_code;
  title = s.title;
  slug = s.slug;
  is_owner = false;
  is_member = false;
}

unfoldable pub get_subcontest_by_slug : String → Action (Option Subcontest)
get_subcontest_by_slug slug =
    absent_if_no_rows subcontest_of_row
      (query_one (λ db. select (λ s. s.slug == slug) db.subcontests))

-- The loop that fills `countryMap`.
abbrev pub fill_country_map : List CountryRow → Dict String Uuid → Dict String Uuid
fill_country_map [] m = m
fill_country_map (c ∷ cs) m = fill_country_map cs (insert c.code c.id m)

unfoldable pub country_map : Db → Dict String Uuid
country_map db = fill_country_map db.countries []

unfoldable pub get_country_code_to_id_map : Action (Dict String Uuid)
get_country_code_to_id_map = query country_map

-- `if m.CountryN != nil { if id, ok := countryMap[m.CountryN.Code]; ok { … } }`.
unfoldable pub resolve : Dict String Uuid → Option Country → Option Uuid
resolve m none = none
resolve m (some c) = lookup c.code m
