-- ===== src/Service/Picks.antt =====
-- `PicksService` of core/service/picks.go. `now` is what `time.Now()` gives.
pub mod Locks
use wcwcpp_backend.Base.{
  ℕ, String, Bool, true, false, not, Option, none, some, List, ◌&&◌, ◌||◌, ◌==◌, nat_eq, ltb,
}
use wcwcpp_backend.Entity.{Uuid, Time, Contest, GroupPick, GroupStanding, KnockoutPick}
use wcwcpp_backend.Sql.{
  Action, Done, World, Result, ok, err, Error, message, pure, fail, fail_if, or_fail, ◌>>=◌, ◌>>◌,
}
use wcwcpp_backend.Ports.{PicksRepository}

-- `if contest == nil { return errors.New("contest not found") }`.
unfoldable pub the_contest : Action (Option Contest) → Action Contest
the_contest lookup_contest = do found ← lookup_contest; or_fail found (message "contest not found")

-- Whether a window is set and `now` is outside it.
unfoldable pub is_locked : Time → Time → Time → Bool
is_locked unlock lock now =
    (not (unlock == 0) && ltb now unlock) || (not (lock == 0) && ltb lock now)

module _ (repo : PicksRepository) where
  unfoldable pub list_group_picks : Uuid → String → Action (List GroupPick × List GroupStanding)
  list_group_picks user slug = do
    contest ← the_contest (repo.get_contest_by_slug slug)
    picks ← repo.list_group_picks user contest.id
    standings ← repo.list_group_standings contest.id
    pure (picks, standings)

  unfoldable pub create_group_picks : Time → Uuid → String → List GroupPick → Action Done
  create_group_picks now user slug picks = do
    contest ← the_contest (repo.get_contest_by_slug slug)
    fail_if (is_locked contest.group_unlock_date contest.group_lock_date now)
        (message "group stage picks are locked")
    repo.create_group_picks user contest.id picks

  unfoldable pub list_knockout_picks : Uuid → String → Action (KnockoutPick × KnockoutPick)
  list_knockout_picks user slug = do
    contest ← the_contest (repo.get_contest_by_slug slug)
    pick ← repo.list_knockout_picks user contest.id
    result ← repo.list_knockout_results contest.id
    pure (pick, result)

  unfoldable pub create_knockout_picks : Time → Uuid → String → KnockoutPick → Action Done
  create_knockout_picks now user slug pick = do
    contest ← the_contest (repo.get_contest_by_slug slug)
    fail_if (is_locked contest.knockout_unlock_date contest.knockout_lock_date now)
        (message "knockout stage picks are locked")
    repo.create_knockout_picks user contest.id pick
