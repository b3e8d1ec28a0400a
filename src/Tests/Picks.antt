-- ===== src/Tests/Picks.antt =====
-- Picks, through the service and without it.
use wcwcpp_backend.Base.{
  ◌*◌, ◌≡◌, refl, String, false, List, [], ◌∷◌, arith, inr, length, ==_iff, string_eq,
}
use wcwcpp_backend.Base.Int.{ℤ, pos, to_int32}
use wcwcpp_backend.Entity.{Contest, GroupPick, GroupPickEntry, Country, Group}
use wcwcpp_backend.Rows.{Db, ContestRow, SubcontestRow}
use wcwcpp_backend.Sql.{World, ok, err, message, monad, fail}
use wcwcpp_backend.Storage.Search.{
  get_contest_by_slug, get_subcontest_by_slug, get_country_code_to_id_map, country_map,
}
use wcwcpp_backend.Storage.Picks.{
  create_group_picks, create_knockout_picks, group_pick_statements, entry_rows, pick_rows,
  delete_group_picks, insert_group_picks, group_pick_error, enter_standings, save_group_rows,
}
use wcwcpp_backend.Storage.Picks.Chosen.{AreKnown, chosen}
use wcwcpp_backend.Storage.Picks.Replace.{replaced, is_submitted, create_group_picks-replaced}
use wcwcpp_backend.Ports.{PicksRepository}
use wcwcpp_backend.Service.Picks as picks_service
use wcwcpp_backend.Service.Picks.Locks.{
  create_group_picks-locked, create_group_picks-open, create_knockout_picks-locked,
}
use wcwcpp_backend.Service.Contest as contest_service
use wcwcpp_backend.Service.Contest.Generated.{generated_matches-once}
use wcwcpp_backend.Service.Contest.Counting.{count}
use wcwcpp_backend.Service.Contest.Meetings.{is_meeting}
use wcwcpp_backend.Service.Contest.Slots.{is_slot}
use wcwcpp_backend.Service.Contest.Owner.{bereft, delete_subcontest-owned}
use wcwcpp_backend.Service.Leaderboard.{subleaderboard}
use wcwcpp_backend.Service.Leaderboard.Access.{subleaderboard-members}
use wcwcpp_backend.Storage.Postgres.{contests, leaderboards}
use wcwcpp_backend.Sql.Laws.{calm}
use wcwcpp_backend.Tests.Data.{contest, db}
use wcwcpp_backend.Tests.Requests.{outside}

abbrev contest_row : ContestRow
contest_row = record {
  id = contest;
  title = "Cup";
  slug = "cup";
  group_unlock_date = 10;
  group_lock_date = 20;
  knockout_unlock_date = 0;
  knockout_lock_date = 40;
}

abbrev subcontest_row : SubcontestRow
subcontest_row = record {
  id = 70;
  contest_id = contest;
  user_id = 5;
  join_code = "ABCDEFGH";
  title = "Us";
  slug = "us";
}

abbrev open_db : Db
open_db = record db {
  users = record { id = 5; email = "a@b"; username = "a" } ∷ [];
  contests = contest_row ∷ [];
  subcontests = subcontest_row ∷ [];
}

abbrev open_world : World
open_world = record { db = open_db; faults = [] }

abbrev entry : String → ℤ → GroupPickEntry
entry code place = record { country = record { code = code; full_name = code }; place = place }

abbrev submission : List GroupPick
submission =
    record {
      letter = "A";
      entries = entry "GER" (pos 1) ∷ entry "FRA" (pos 2) ∷ [];
      extra_qualifier = false;
    }
    ∷ []

program : Unit {0}
unfolding monad create_group_picks group_pick_statements get_country_code_to_id_map country_map
    entry_rows pick_rows delete_group_picks insert_group_picks group_pick_error enter_standings
    save_group_rows get_contest_by_slug get_subcontest_by_slug to_int32
program = tt

abbrev saved : World
saved = (create_group_picks 5 contest submission open_world).1

-- The four rows of user 5 gave way to two; those of user 6 stayed.
saved_rows : length saved.db.group_picks ≡ 4
unfolding program
saved_rows = refl

create_group_picks-replaced_example :
    AreKnown (country_map open_db) 5 contest submission
    × (saved.db.group_picks
        ≡ replaced
            (chosen (country_map open_db) 5 contest submission)
            (is_submitted 5 contest submission)
            open_db.group_picks)
unfolding program
create_group_picks-replaced_example =
    create_group_picks-replaced 5 contest submission open_world {w' = saved} refl

-- A repository with the writes of the database; its lists are not asked for here.
abbrev picks_repository : PicksRepository
picks_repository = record {
  list_group_picks = λ user contest. fail (message "not asked for");
  list_group_standings = λ contest. fail (message "not asked for");
  create_group_picks = create_group_picks;
  list_knockout_picks = λ user contest. fail (message "not asked for");
  list_knockout_results = λ contest. fail (message "not asked for");
  create_knockout_picks = create_knockout_picks;
  get_contest_by_slug = get_contest_by_slug;
  get_subcontest_by_slug = get_subcontest_by_slug;
  get_country_code_to_id_map = get_country_code_to_id_map;
}

abbrev cup : Contest
cup = record {
  id = contest;
  title = "Cup";
  slug = "cup";
  group_unlock_date = 10;
  group_lock_date = 20;
  knockout_unlock_date = 0;
  knockout_lock_date = 40;
  groups = [];
}

create_group_picks-locked_example :
    picks_service.create_group_picks picks_repository 21 5 "cup" submission open_world
    ≡ (err (message "group stage picks are locked"), open_world)
unfolding program
create_group_picks-locked_example =
    create_group_picks-locked picks_repository 21 5 "cup" cup {w = open_world} {w' = open_world}
      refl submission (inr (ground arith, omega arith))

create_group_picks-open_example :
    picks_service.create_group_picks picks_repository 20 5 "cup" submission open_world
    ≡ create_group_picks 5 contest submission open_world
unfolding program
create_group_picks-open_example =
    create_group_picks-open picks_repository 20 5 "cup" cup {w = open_world} {w' = open_world} refl
      submission (inr (omega arith), inr (omega arith))

create_knockout_picks-locked_example :
    picks_service.create_knockout_picks picks_repository 41 5 "cup"
      (record { entries = [] })
      open_world
    ≡ (err (message "knockout stage picks are locked"), open_world)
unfolding program
create_knockout_picks-locked_example =
    create_knockout_picks-locked picks_repository 41 5 "cup" cup {w = open_world} {w' = open_world}
      refl (record { entries = [] }) (inr (ground arith, omega arith))

delete_subcontest-owned_example :
    contest_service.delete_subcontest (contests outside) 5 "us" (calm open_db)
    ≡ (ok tt, calm (bereft 70 open_db))
delete_subcontest-owned_example = delete_subcontest-owned outside 5 "us" open_db

subleaderboard-members_example :
    subleaderboard (leaderboards outside) 6 "us" (pos 10) (pos 0) (calm open_db)
    ≡ (err (message "permission denied: no access to subcontest"), calm open_db)
subleaderboard-members_example = subleaderboard-members outside 6 "us" (pos 10) (pos 0) open_db

abbrev team : String → Country
team code = record { code = code; full_name = code }

abbrev groups : List Group
groups =
    record { letter = "A"; countries = team "BRA" ∷ team "ARG" ∷ team "FRA" ∷ team "GER" ∷ [] } ∷ []

-- BRA meets FRA once, and the second match of the last round is there.
generated_matches-once_example :
    (count (is_meeting "BRA" "FRA") (contest_service.generated_matches groups) ≡ 1)
    × (count (is_slot 5 1) (contest_service.generated_matches groups) ≡ 1)
    × (2 * length (contest_service.generated_matches groups) ≡ 76)
generated_matches-once_example =
    generated_matches-once groups "BRA" "FRA" 5 1
      (λ e. absurd (ground (arith, (==_iff {A = String} "BRA" "FRA").1 e)))
