-- ===== src/Storage/Postgres.antt =====
-- The repositories of adapters/storage/postgres as the services take them: the interfaces of
-- ports/repositories.go, filled. What is not the program's own is an argument: the identifiers that
-- the server makes, the order in which Go runs through a map, the server's collation, the order of
-- rows that a query leaves open, and the answers to an INSERT without rows and to a negative offset.
use Prim.Native.Nat.{Ordering}
use wcwcpp_backend.Base.{ℕ, String, Dict, Bool, List, Option}
use wcwcpp_backend.Base.Int.{ℤ}
use wcwcpp_backend.Entity.{Uuid}
use wcwcpp_backend.Sql.{Error}
use wcwcpp_backend.Ports.{ContestRepository, UserRepository, LeaderboardRepository, PicksRepository}
use wcwcpp_backend.Storage.Search.{
  get_contest_by_slug, get_subcontest_by_slug, get_country_code_to_id_map,
}
use wcwcpp_backend.Storage.Users as Users
use wcwcpp_backend.Storage.Contests as Contests
use wcwcpp_backend.Storage.Contests.Setup as Setup
use wcwcpp_backend.Storage.Lists as Lists
use wcwcpp_backend.Storage.Lists.Groups as Groups
use wcwcpp_backend.Storage.Picks as Picks
use wcwcpp_backend.Storage.Leaderboard as Leaderboard
use wcwcpp_backend.Storage.UpdateMatch.{update_match}
use wcwcpp_backend.Storage.FinalizeGroup.{finalize_group_rankings}
use wcwcpp_backend.Storage.ThirdPlace.{finalize_third_place_qualifier}

-- What one request gets from outside.
pub record Outside : Type 0 where
  pub new_user : Uuid
  pub new_contest : Uuid
  pub new_subcontest : Uuid
  pub new_country : ℕ → Uuid
  pub new_match : ℕ → Uuid
  pub map_order : Dict Uuid ℤ → Dict Uuid ℤ
  pub collation : String → String → Ordering
  pub without_rows : Error
  pub bad_offset : Option Error
  pub row_order : List Uuid → List Uuid
  pub pick_order : List (Uuid × Bool) → List (Uuid × Bool)

unfoldable pub users : Outside → UserRepository
users o = record {
  find_by_email = Users.find_by_email;
  create_user = Users.create_user o.new_user;
  count_users = Users.count_users;
  delete_user = Users.delete_user;
}

unfoldable pub contests : Outside → ContestRepository
contests o = record {
  list_contests = Contests.list_contests;
  create_contest = Contests.create_contest o.new_contest;
  create_countries = Setup.create_countries o.new_country;
  create_matches = Setup.create_matches o.new_match;
  create_group_standings = Setup.create_group_standings o.without_rows;
  create_subcontest = Contests.create_subcontest o.new_subcontest;
  join_subcontest = Contests.join_subcontest;
  get_subcontest_by_join_code = Contests.get_subcontest_by_join_code;
  list_subcontests = Contests.list_subcontests;
  delete_subcontest = Contests.delete_subcontest;
  list_group_matches = Lists.list_group_matches;
  list_knockout_matches = Lists.list_knockout_matches;
  update_match = update_match;
  finalize_group_rankings = finalize_group_rankings o.map_order;
  finalize_third_place_qualifier = finalize_third_place_qualifier o.row_order o.pick_order;
  get_contest_by_slug = get_contest_by_slug;
  get_subcontest_by_slug = get_subcontest_by_slug;
  get_country_code_to_id_map = get_country_code_to_id_map;
}

unfoldable pub leaderboards : Outside → LeaderboardRepository
leaderboards o = record {
  leaderboard = Leaderboard.leaderboard o.bad_offset;
  subleaderboard = Leaderboard.subleaderboard o.bad_offset;
  has_subcontest_access = Leaderboard.has_subcontest_access;
  get_contest_by_slug = get_contest_by_slug;
  get_subcontest_by_slug = get_subcontest_by_slug;
  get_country_code_to_id_map = get_country_code_to_id_map;
}

unfoldable pub picks : Outside → PicksRepository
picks o = record {
  list_group_picks = Groups.list_group_picks o.collation;
  list_group_standings = Lists.list_group_standings o.collation;
  create_group_picks = Picks.create_group_picks;
  list_knockout_picks = Lists.list_knockout_picks o.collation;
  list_knockout_results = Lists.list_knockout_results o.collation;
  create_knockout_picks = Picks.create_knockout_picks;
  get_contest_by_slug = get_contest_by_slug;
  get_subcontest_by_slug = get_subcontest_by_slug;
  get_country_code_to_id_map = get_country_code_to_id_map;
}
