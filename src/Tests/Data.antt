-- ===== src/Tests/Data.antt =====
-- A contest with one group of four countries, two users with picks, and a bracket.
use wcwcpp_backend.Base.{String, true, Option, none, some, [], ◌∷◌}
use wcwcpp_backend.Base.Int.{ℤ, pos}
use wcwcpp_backend.Entity.{Uuid, Country, Match}
use wcwcpp_backend.Rows.{
  ContestRow, CountryRow, GroupStandingRow, GroupPickRow, KnockoutPickRow, MatchRow, Db,
}
use wcwcpp_backend.Sql.{World}

abbrev pub contest : Uuid
contest = 1

abbrev pub cup : ContestRow
cup = record {
  id = contest;
  title = "Cup";
  slug = "cup";
  group_unlock_date = 0;
  group_lock_date = 0;
  knockout_unlock_date = 0;
  knockout_lock_date = 0;
}

abbrev country_row : Uuid → String → CountryRow
country_row id code = record { id = id; code = code; full_name = code }

abbrev pub country : String → Option Country
country code = some (record { code = code; full_name = code })

abbrev pub standing : Uuid → GroupStandingRow
standing id = record {
  contest_id = contest;
  country_id = id;
  letter = "A";
  points = pos 0;
  wins = pos 0;
  draws = pos 0;
  losses = pos 0;
  gf = pos 0;
  ga = pos 0;
  gd = pos 0;
  cs = pos 0;
  rank = none;
  is_third_place_qualifier = none;
}

abbrev pub match_row : Uuid → ℤ → Option ℤ → Option Uuid → Option Uuid → MatchRow
match_row id round index c1 c2 = record {
  id = id;
  contest_id = contest;
  round = round;
  round_index = index;
  country1_id = c1;
  country2_id = c2;
  country1_goals = none;
  country2_goals = none;
  country1_penalties = none;
  country2_penalties = none;
  country1_conduct_score = none;
  country2_conduct_score = none;
}

abbrev pub group_pick : Uuid → Uuid → ℤ → GroupPickRow
group_pick user country place = record {
  user_id = user;
  contest_id = contest;
  country_id = country;
  letter = "A";
  place = place;
  extra_qualifier = true;
}

abbrev pub knockout_pick : Uuid → Uuid → ℤ → KnockoutPickRow
knockout_pick user country round = record {
  user_id = user;
  contest_id = contest;
  country_id = country;
  round = round;
}

-- One played match of the group, and the first matches of the bracket.
abbrev pub played : MatchRow
played = record (match_row 100 (pos 0) none (some 11) (some 12)) {
  country1_goals = some (pos 2);
  country2_goals = some (pos 1);
}

abbrev pub decided : MatchRow
decided = record (match_row 201 (pos 1) (some (pos 0)) (some 11) (some 12)) {
  country1_goals = some (pos 1);
  country2_goals = some (pos 0);
}

abbrev pub db : Db
db = record {
  users = [];
  contests = [];
  countries =
      country_row 11 "BRA"
      ∷ country_row 12 "ARG"
      ∷ country_row 13 "FRA"
      ∷ country_row 14 "GER"
      ∷ [];
  subcontests = [];
  contest_standings = [];
  subcontest_entries = [];
  group_standings = standing 11 ∷ standing 12 ∷ standing 13 ∷ standing 14 ∷ [];
  knockout_standings = [];
  group_picks =
      group_pick 5 11 (pos 1)
      ∷ group_pick 5 12 (pos 2)
      ∷ group_pick 5 13 (pos 3)
      ∷ group_pick 5 14 (pos 4)
      ∷ group_pick 6 12 (pos 1)
      ∷ group_pick 6 11 (pos 2)
      ∷ [];
  knockout_picks = knockout_pick 5 11 (pos 2) ∷ knockout_pick 6 12 (pos 2) ∷ [];
  matches =
      played
      ∷ match_row 101 (pos 0) none (some 13) (some 14)
      ∷ decided
      ∷ match_row 202 (pos 1) (some (pos 1)) (some 13) (some 14)
      ∷ match_row 203 (pos 2) (some (pos 0)) none none
      ∷ [];
}

-- No match of the group is open any more.
abbrev pub closed_db : Db
closed_db = record db { matches = played ∷ [] }

abbrev pub world : World
world = record { db = db; faults = [] }

abbrev pub closed_world : World
closed_world = record { db = closed_db; faults = [] }

abbrev pub no_result : Match
no_result = record {
  country1 = none;
  country2 = none;
  country1_goals = none;
  country2_goals = none;
  country1_penalties = none;
  country2_penalties = none;
  country1_conduct_score = none;
  country2_conduct_score = none;
  round = pos 0;
  round_index = none;
}

-- FRA 3, GER 1 in the group; and the knockout match at round 1, index 0, once more.
abbrev pub group_result : Match
group_result = record no_result {
  country1 = country "FRA";
  country2 = country "GER";
  country1_goals = some (pos 3);
  country2_goals = some (pos 1);
}

abbrev pub repeated : Match
repeated = record no_result {
  country1_goals = some (pos 3);
  country2_goals = some (pos 1);
  round = pos 1;
  round_index = some (pos 0);
}
