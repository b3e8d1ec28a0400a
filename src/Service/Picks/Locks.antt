-- ===== src/Service/Picks/Locks.antt =====
-- Picks are taken inside their window only.
use wcwcpp_backend.Base.{◌<◌, ◌≤◌, ◌≡◌, ◌≢◌, ◌⊎◌, ◌∙◌, String, true, false, some, List, arith}
use wcwcpp_backend.Entity.{Uuid, Time, Contest, GroupPick, KnockoutPick}
use wcwcpp_backend.Sql.{World, ok, err, message, or_fail, pure}
use wcwcpp_backend.Sql.Laws.{>>=-ok, fail_if-true, fail_if-false}
use wcwcpp_backend.Ports.{PicksRepository}
use wcwcpp_backend.Service.Picks.{the_contest, is_locked, create_group_picks, create_knockout_picks}

-- `now` is before the unlock time, or after the lock time, if these are set.
abbrev pub Outside : Time → Time → Time → Type 0
Outside unlock lock now = ((unlock ≢ 0) × (now < unlock)) ⊎ ((lock ≢ 0) × (lock < now))

abbrev pub Inside : Time → Time → Time → Type 0
Inside unlock lock now = ((unlock ≡ 0) ⊎ (unlock ≤ now)) × ((lock ≡ 0) ⊎ (now ≤ lock))

is_locked-Outside :
    (unlock lock now : Time) → Outside unlock lock now → is_locked unlock lock now ≡ true
unfolding is_locked
is_locked-Outside unlock lock now h = ground (arith, h)

is_locked-Inside :
    (unlock lock now : Time) → Inside unlock lock now → is_locked unlock lock now ≡ false
unfolding is_locked
is_locked-Inside unlock lock now h = ground (arith, h)

module _ (repo : PicksRepository) (now : Time) (user : Uuid) (slug : String) (contest : Contest)
    {w w' : World} (found : repo.get_contest_by_slug slug w ≡ (ok (some contest), w')) where
  contest_found : the_contest (repo.get_contest_by_slug slug) w ≡ (ok contest, w')
  unfolding the_contest or_fail pure
  contest_found = >>=-ok (repo.get_contest_by_slug slug) _ found

  -- Outside the window of the contest for group picks the service refuses, and has asked the
  -- repository for nothing but the contest.
  pub create_group_picks-locked :
      (picks : List GroupPick)
      → Outside contest.group_unlock_date contest.group_lock_date now
      → create_group_picks repo now user slug picks w
        ≡ (err (message "group stage picks are locked"), w')
  unfolding create_group_picks
  create_group_picks-locked picks h =
      >>=-ok _ _ contest_found ∙ fail_if-true _ _ _ w' (is_locked-Outside _ _ now h)

  -- Inside the window, both ends included, saving group picks is what the repository does for the
  -- contest; an end that is not set is no bound.
  pub create_group_picks-open :
      (picks : List GroupPick)
      → Inside contest.group_unlock_date contest.group_lock_date now
      → create_group_picks repo now user slug picks w
        ≡ repo.create_group_picks user contest.id picks w'
  unfolding create_group_picks
  create_group_picks-open picks h =
      >>=-ok _ _ contest_found ∙ fail_if-false _ _ _ w' (is_locked-Inside _ _ now h)

  -- Outside the window of the contest for knockout picks the service refuses, and has asked the
  -- repository for nothing but the contest.
  pub create_knockout_picks-locked :
      (pick : KnockoutPick)
      → Outside contest.knockout_unlock_date contest.knockout_lock_date now
      → create_knockout_picks repo now user slug pick w
        ≡ (err (message "knockout stage picks are locked"), w')
  unfolding create_knockout_picks
  create_knockout_picks-locked pick h =
      >>=-ok _ _ contest_found ∙ fail_if-true _ _ _ w' (is_locked-Outside _ _ now h)

  -- Inside the window, both ends included, saving knockout picks is what the repository does for
  -- the contest; an end that is not set is no bound.
  pub create_knockout_picks-open :
      (pick : KnockoutPick)
      → Inside contest.knockout_unlock_date contest.knockout_lock_date now
      → create_knockout_picks repo now user slug pick w
        ≡ repo.create_knockout_picks user contest.id pick w'
  unfolding create_knockout_picks
  create_knockout_picks-open pick h =
      >>=-ok _ _ contest_found ∙ fail_if-false _ _ _ w' (is_locked-Inside _ _ now h)
