-- ===== src/Storage/Lists.antt =====
-- The lists of matches of adapters/storage/postgres/contest.go, and those of standings, picks and
-- results of adapters/storage/postgres/picks.go. `collation` stands for the order in which the server
-- puts texts. A join on the key of a table gives at most one row.
pub mod Groups
pub mod Sorted
pub mod Cells
pub mod Gathered
use Prim.Native.Nat.{Ordering}
use wcwcpp_backend.Base.{
  String, Bool, false, Option, none, some, List, [], ◌∷◌, ◌++◌, map, ◌&&◌, ◌==◌, nat_eq, string_eq,
  select, any, first,
}
use wcwcpp_backend.Base.Int.{ℤ, pos, int_eq, ltb_ℤ}
use wcwcpp_backend.Entity.{Uuid, Country, Match, GroupStanding, KnockoutPick, KnockoutPickEntry}
use wcwcpp_backend.Rows.{
  Db, CountryRow, MatchRow, GroupStandingRow, KnockoutPickRow, KnockoutStandingRow,
}
use wcwcpp_backend.Sql.{Action, query, ◌>>=◌, pure}
use wcwcpp_backend.Sql.Order.{order_by}
use wcwcpp_backend.Sql.Keys.{key_int, key_null, in_order}

abbrev pub country_entity : CountryRow → Country
country_entity c = record { code = c.code; full_name = c.full_name }

-- The left join with `countries`, and the two tests for nil.
abbrev pub joined_country : Db → Option Uuid → Option CountryRow
joined_country db none = none
joined_country db (some id) = first (select (λ c. c.id == id) db.countries)

abbrev pub map_country : Option CountryRow → Option Country
map_country none = none
map_country (some c) = some (country_entity c)

-- `mapDbRowsToMatches`, on one row with what the joins gave.
unfoldable pub map_match : MatchRow → Option CountryRow → Option CountryRow → Match
map_match row c1 c2 = record {
  country1 = map_country c1;
  country2 = map_country c2;
  country1_goals = row.country1_goals;
  country2_goals = row.country2_goals;
  country1_penalties = row.country1_penalties;
  country2_penalties = row.country2_penalties;
  country1_conduct_score = row.country1_conduct_score;
  country2_conduct_score = row.country2_conduct_score;
  round = row.round;
  round_index = row.round_index;
}

abbrev pub match_entity : Db → MatchRow → Match
match_entity db m = map_match m (joined_country db m.country1_id) (joined_country db m.country2_id)

abbrev pub is_country_of : Option Uuid → Uuid → Bool
is_country_of none id = false
is_country_of (some c) id = id == c

-- The inner join with the standing of the first country, and its letter.
abbrev pub in_group : Db → String → MatchRow → Bool
in_group db letter m =
    any
      (λ s.
        s.contest_id == m.contest_id
        && is_country_of m.country1_id s.country_id
        && s.letter == letter)
      db.group_standings

unfoldable pub list_group_matches : Uuid → String → Action (List Match)
list_group_matches contest letter = query (λ db.
    map (match_entity db) (
      select (λ m. m.round == pos 0 && m.contest_id == contest && in_group db letter m) db.matches))

abbrev pub round_before : MatchRow → MatchRow → Bool
round_before m n = in_order (key_int m.round n.round ∷ key_null m.round_index n.round_index ∷ [])

abbrev pub knockout_rows_of : Uuid → Db → List MatchRow
knockout_rows_of contest db =
    order_by round_before
      (select (λ m. ltb_ℤ (pos 0) m.round && m.contest_id == contest) db.matches)

unfoldable pub list_knockout_matches : Uuid → Action (List Match)
list_knockout_matches contest = query (λ db. map (match_entity db) (knockout_rows_of contest db))

-- The inner join of rows with their countries.
module _ {R : Type 0} (country_id : R → Uuid) where
  abbrev pub with_countries : List CountryRow → List R → List (R × CountryRow)
  with_countries countries [] = []
  with_countries countries (r ∷ rs) =
      map (λ c. (r, c)) (select (λ c. c.id == country_id r) countries)
      ++ with_countries countries rs

module _ (collation : String → String → Ordering) where
  abbrev pub standing_before : GroupStandingRow × CountryRow → GroupStandingRow × CountryRow → Bool
  standing_before (r, c) (s, d) = in_order (
      collation r.letter s.letter
      ∷ key_null r.rank s.rank
      ∷ key_int s.points r.points
      ∷ key_int s.gd r.gd
      ∷ key_int s.gf r.gf
      ∷ key_int s.cs r.cs
      ∷ collation c.code d.code
      ∷ [])

  abbrev pub standing_rows : Uuid → Db → List (GroupStandingRow × CountryRow)
  standing_rows contest db =
      with_countries (λ r. r.country_id) db.countries
        (select (λ r. r.contest_id == contest) db.group_standings)

  abbrev pub standing_entity : GroupStandingRow × CountryRow → GroupStanding
  standing_entity (r, c) = record {
    country = country_entity c;
    letter = r.letter;
    points = r.points;
    wins = r.wins;
    draws = r.draws;
    losses = r.losses;
    goals_for = r.gf;
    goals_against = r.ga;
    goal_difference = r.gd;
    conduct_score = r.cs;
    rank = r.rank;
    is_third_place_qualifier = r.is_third_place_qualifier;
  }

  unfoldable pub list_group_standings : Uuid → Action (List GroupStanding)
  list_group_standings contest =
      query (λ db. map standing_entity (order_by standing_before (standing_rows contest db)))

  abbrev pub pick_before : KnockoutPickRow × CountryRow → KnockoutPickRow × CountryRow → Bool
  pick_before (p, c) (q, d) = in_order (key_int p.round q.round ∷ collation c.code d.code ∷ [])

  abbrev pub pick_entity : KnockoutPickRow × CountryRow → KnockoutPickEntry
  pick_entity (p, c) = record { country = country_entity c; round = p.round }

  abbrev pub own_picks : Uuid → Uuid → Db → List (KnockoutPickRow × CountryRow)
  own_picks user contest db =
      with_countries (λ p. p.country_id) db.countries
        (select (λ p. p.user_id == user && p.contest_id == contest) db.knockout_picks)

  unfoldable pub list_knockout_picks : Uuid → Uuid → Action KnockoutPick
  list_knockout_picks user contest = query (λ db. record {
    entries = map pick_entity (order_by pick_before (own_picks user contest db));
  })

  abbrev pub result_before :
      KnockoutStandingRow × CountryRow → KnockoutStandingRow × CountryRow → Bool
  result_before (p, c) (q, d) = in_order (key_int p.round q.round ∷ collation c.code d.code ∷ [])

  abbrev pub result_entity : KnockoutStandingRow × CountryRow → KnockoutPickEntry
  result_entity (p, c) = record { country = country_entity c; round = p.round }

  abbrev pub contest_results : Uuid → Db → List (KnockoutStandingRow × CountryRow)
  contest_results contest db =
      with_countries (λ p. p.country_id) db.countries
        (select (λ p. p.contest_id == contest) db.knockout_standings)

  unfoldable pub list_knockout_results : Uuid → Action KnockoutPick
  list_knockout_results contest = query (λ db. record {
    entries = map result_entity (order_by result_before (contest_results contest db));
  })
