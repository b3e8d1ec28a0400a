-- ===== src/Storage/Knockout.antt =====
-- The knockout part of the transaction of `UpdateMatch`, adapters/storage/postgres/contest.go: who
-- won, where winner and semifinal loser go, what the winner has reached, and the points for it.
pub mod Ties
pub mod Rewards
pub mod Elsewhere
pub mod Bracket
use wcwcpp_backend.Base.{
  ℕ, String, Bool, true, false, Option, none, some, List, map, ◌&&◌, ◌==◌, nat_eq, select,
  if◌then◌else◌,
}
use wcwcpp_backend.Base.Int.{ℤ, pos, ◌+ℤ◌, to_int32, ltb_ℤ, int_eq, half, is_even}
use wcwcpp_backend.Entity.{Uuid}
use wcwcpp_backend.Rows.{Db, MatchRow, KnockoutStandingRow, KnockoutPickRow}
use wcwcpp_backend.Sql.{
  Action, World, Result, ok, err, Error, message, wrap, Done, pure, fail, ◌>>=◌, ◌>>◌, query, write,
  on_error, exec, update_where, upsert,
}
use wcwcpp_backend.Storage.Existing.{at_slot}
use wcwcpp_backend.Storage.Award.{Stage, award_all}

-- The penalties decide a tie if both are known and differ.
abbrev pub penalty_result : Uuid → Uuid → Option ℤ → Option ℤ → Option (Uuid × Uuid)
penalty_result c1 c2 none p2 = none
penalty_result c1 c2 (some p1) none = none
penalty_result c1 c2 (some p1) (some p2) =
    if ltb_ℤ p2 p1 then some (c1, c2) else if ltb_ℤ p1 p2 then some (c2, c1) else none

-- The winner and the loser, if there is one: `winnerID`, `loserID` and `hasWinner`.
unfoldable pub match_result : Uuid → Uuid → ℤ → ℤ → Option ℤ → Option ℤ → Option (Uuid × Uuid)
match_result c1 c2 g1 g2 p1 p2 =
    if ltb_ℤ g2 g1
    then some (c1, c2)
    else if ltb_ℤ g1 g2
    then some (c2, c1)
    else penalty_result c1 c2 p1 p2

abbrev pub set_country : Bool → Uuid → MatchRow → MatchRow
set_country true c m = record m { country1_id = some c }
set_country false c m = record m { country2_id = some c }

-- UPDATE matches SET country1_id or country2_id, at a round and index.
unfoldable pub seat : Uuid → ℤ → ℤ → Bool → Uuid → Db → Db
seat contest round index first_slot c db = record db {
  matches = update_where (at_slot contest round index) (set_country first_slot c) db.matches;
}

-- The winner goes to the next round, below round 5.
unfoldable pub advance_winner : Uuid → ℤ → ℤ → Uuid → Action Done
advance_winner contest round index winner =
    if ltb_ℤ round (pos 5)
    then on_error (wrap "failed to seed winner into next match") (
        write
          (seat contest (to_int32 (round +ℤ pos 1)) (to_int32 (half index)) (is_even index) winner))
    else pure tt

-- The loser of a semifinal goes to the third place match.
unfoldable pub seat_loser : Uuid → ℤ → ℤ → Uuid → Action Done
seat_loser contest round index loser =
    if round == pos 4
    then on_error (wrap "failed to seed loser into Third-Place match")
        (write (seat contest (pos 5) (pos 1) (index == pos 0) loser))
    else pure tt

-- `achievedRound` and `points`, which are 0 for a round outside 1 to 5.
unfoldable pub achieved : ℤ → ℤ → ℤ × ℤ
achieved round index =
    if round == pos 1
    then (pos 2, pos 15)
    else if round == pos 2
    then (pos 3, pos 20)
    else if round == pos 3
    then (pos 4, pos 25)
    else if round == pos 4
    then (pos 5, pos 30)
    else if round == pos 5
    then (if index == pos 1 then (pos 7, pos 5) else (pos 6, pos 35))
    else (pos 0, pos 0)

abbrev pub reached_key : Uuid → Uuid → KnockoutStandingRow → Bool
reached_key contest country s = s.contest_id == contest && s.country_id == country

abbrev pub reached_row : Uuid → Uuid → ℤ → KnockoutStandingRow
reached_row contest country round = record {
  contest_id = contest;
  country_id = country;
  round = round;
}

-- INSERT INTO knockout_standings … ON CONFLICT DO UPDATE SET round.
unfoldable pub set_reached : Uuid → Uuid → ℤ → Db → Db
set_reached contest country round db = record db {
  knockout_standings =
      upsert (reached_key contest country) (λ s. record s { round = round })
        (reached_row contest country round) db.knockout_standings;
}

abbrev pub predicts : Uuid → Uuid → ℤ → KnockoutPickRow → Bool
predicts contest country round p =
    p.contest_id == contest && p.country_id == country && p.round == round

-- The users who predicted that a country reaches a round.
unfoldable pub picked_users : Uuid → Uuid → ℤ → Db → List Uuid
picked_users contest country round db =
    map (λ p. p.user_id) (select (predicts contest country round) db.knockout_picks)

abbrev pub award_if : Uuid → Uuid → ℤ → ℤ → Action Done
award_if contest winner round points =
    if ltb_ℤ (pos 0) points
    then (do
      users ←
          on_error (wrap "failed to query knockout picks")
            (query (picked_users contest winner round))
      award_all (wrap "failed to update contest standings for user") Stage.knockout_stage contest
          points users)
    else pure tt

unfoldable pub reward_winner : Uuid → Uuid → ℤ → ℤ → Action Done
reward_winner contest winner round points =
    if ltb_ℤ (pos 0) round
    then on_error (wrap "failed to upsert winner knockout standings")
        (write (set_reached contest winner round))
      >> award_if contest winner round points
    else pure tt

unfoldable pub reward_loser : Uuid → ℤ → Uuid → Action Done
reward_loser contest round loser =
    if round == pos 4
    then on_error (wrap "failed to upsert Semifinal loser knockout standings")
        (write (set_reached contest loser (pos 5)))
    else pure tt

-- `if hasWinner && existingMatch.RoundIndex != nil`.
unfoldable pub progress : Uuid → ℤ → ℤ → Uuid × Uuid → Action Done
progress contest round index (winner, loser) = do
  advance_winner contest round index winner
  seat_loser contest round index loser
  reward_winner contest winner (achieved round index).0 (achieved round index).1
  reward_loser contest round loser

abbrev pub progress_if : MatchRow → Option ℤ → Option (Uuid × Uuid) → Action Done
progress_if m none r = pure tt
progress_if m (some index) none = pure tt
progress_if m (some index) (some r) = progress m.contest_id m.round index r

abbrev pub decide_for : MatchRow → MatchRow → Option Uuid → Option Uuid → ℤ → ℤ → Action Done
decide_for old new (some c1) (some c2) g1 g2 =
    progress_if old old.round_index
      (match_result c1 c2 g1 g2 new.country1_penalties new.country2_penalties)
decide_for old new none c2 g1 g2 =
    fail (message "cannot progress knockout match with undefined countries")
decide_for old new (some c1) none g1 g2 =
    fail (message "cannot progress knockout match with undefined countries")

abbrev pub decide_if : MatchRow → MatchRow → Option ℤ → Option ℤ → Action Done
decide_if old new none g2 = pure tt
decide_if old new (some g1) none = pure tt
decide_if old new (some g1) (some g2) = decide_for old new new.country1_id new.country2_id g1 g2

-- `if isKnockout && updateModel.Country1Goals != nil && updateModel.Country2Goals != nil`, with the
-- match as it was and as it is now.
unfoldable pub decide_knockout : MatchRow → MatchRow → Action Done
unfolding match_result progress advance_winner seat_loser achieved reward_winner reward_loser
decide_knockout old new = decide_if old new new.country1_goals new.country2_goals
