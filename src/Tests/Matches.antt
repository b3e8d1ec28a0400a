-- ===== src/Tests/Matches.antt =====
-- Updates of matches.
use wcwcpp_backend.Base.{◌≡◌, refl, some, inl, true, false, [], ◌∷◌, All, arith, map}
use wcwcpp_backend.Base.Int.{ℤ, pos, negsuc, ◌+ℤ◌, ◌-ℤ◌, to_int32, add32, sub32, half, is_even}
use wcwcpp_backend.Entity.{Uuid}
use wcwcpp_backend.Sql.{World, Error, ok, err, message, monad}
use wcwcpp_backend.Storage.Search.{country_map, get_country_code_to_id_map, resolve}
use wcwcpp_backend.Storage.Award.{Stage, award, award_all}
use wcwcpp_backend.Storage.Award.Total.{score_of, points_for}
use wcwcpp_backend.Storage.Score.{Score, apply_score, revert_score, add_goals, win, draw, lose}
use wcwcpp_backend.Storage.Score.Sound.{IsSound}
use wcwcpp_backend.Storage.Score.Undo.{Fits, revert-apply_score}
use wcwcpp_backend.Storage.Existing.{find_existing, is_completed, merge_match, has_updates}
use wcwcpp_backend.Storage.Standings.{update_standings, standing_rows, save_standing}
use wcwcpp_backend.Storage.Knockout.{
  decide_knockout, progress, seat, set_reached, picked_users, achieved,
}
use wcwcpp_backend.Storage.Knockout.Ties.{decide_knockout-Level}
use wcwcpp_backend.Rows.{MatchRow}
use wcwcpp_backend.Storage.Knockout.Rewards.{progress_rewards}
use wcwcpp_backend.Storage.Knockout.Bracket.{Seated, progress_meets}
use wcwcpp_backend.Storage.UpdateMatch.{update_match, match_effects, save_match}
use wcwcpp_backend.Storage.UpdateMatch.Atomic.{update_match-atomic}
use wcwcpp_backend.Storage.UpdateMatch.Sound.{update_match-IsSound}
use wcwcpp_backend.Storage.UpdateMatch.Completed.{update_match_completed}
use wcwcpp_backend.Tests.Data.{
  contest, db, world, standing, match_row, group_result, repeated, decided,
}

-- Everything that a run of `update_match` computes with.
program : Unit {0}
unfolding monad update_match get_country_code_to_id_map country_map resolve find_existing
    is_completed merge_match has_updates match_effects save_match update_standings standing_rows
    save_standing apply_score revert_score add_goals win draw lose decide_knockout progress seat
    set_reached picked_users achieved award award_all to_int32 add32 sub32 half is_even ◌+ℤ◌ ◌-ℤ◌
program = tt

-- FRA 3, GER 1: the points and goal differences of the group.
group_run :
    map {B = ℤ × ℤ}
      (λ s. (s.points, s.gd))
      (update_match contest group_result world).1.db.group_standings
    ≡ (pos 0, pos 0) ∷ (pos 0, pos 0) ∷ (pos 3, pos 2) ∷ (pos 0, negsuc 1) ∷ []
unfolding program
group_run = refl

repeated_run :
    update_match contest repeated world
    ≡ (err (message "match has already been completed and cannot be updated again"), world)
unfolding program
repeated_run = refl

update_match-atomic_example : (update_match contest repeated world).1.db ≡ db
unfolding program
update_match-atomic_example =
    update_match-atomic contest repeated world
      {e = message "match has already been completed and cannot be updated again"} refl

standing-IsSound : (c : Uuid) → IsSound (standing c)
unfolding program
standing-IsSound c = record { difference = refl; league = refl }

update_match-IsSound_example :
    All IsSound (update_match contest group_result world).1.db.group_standings
update_match-IsSound_example =
    update_match-IsSound contest group_result world
      (standing-IsSound 11, (standing-IsSound 12, (standing-IsSound 13, (standing-IsSound 14, tt))))

update_match_completed_example :
    (e : Error) × ((update_match contest repeated world).0 ≡ err e)
    × ((update_match contest repeated world).1.db ≡ db)
unfolding program
update_match_completed_example =
    update_match_completed contest repeated (pos 0) world decided [] refl refl refl refl

standing-Fits : (c : Uuid) → Fits (standing c)
unfolding program
standing-Fits c = record {
  points = omega arith;
  wins = omega arith;
  draws = omega arith;
  losses = omega arith;
  gf = omega arith;
  ga = omega arith;
  cs = omega arith;
  gd = refl;
}

abbrev four_two : Score
four_two = record { goals1 = pos 4; goals2 = pos 2; conduct1 = negsuc 0; conduct2 = negsuc 2 }

revert-apply_score_example :
    revert_score four_two (apply_score four_two (standing 11, standing 12))
    ≡ (standing 11, standing 12)
revert-apply_score_example =
    revert-apply_score four_two (standing 11) (standing 12) (standing-Fits 11) (standing-Fits 12)

abbrev first_done : World
first_done = (progress contest (pos 1) (pos 0) (11, 12) world).1

abbrev second_done : World
second_done = (progress contest (pos 1) (pos 1) (13, 14) first_done).1

progress_rewards_example :
    score_of Stage.knockout_stage contest 5 first_done.db
    ≡ score_of Stage.knockout_stage contest 5 db
      +ℤ points_for 5
          (achieved (pos 1) (pos 0)).1
          (picked_users contest 11 (achieved (pos 1) (pos 0)).0 db)
unfolding program
progress_rewards_example =
    progress_rewards contest 5 (pos 1) (pos 0) 11 12 world {w' = first_done} refl

progress_meets_example :
    Seated contest (pos 2) (pos 0) true 11 second_done.db
    × Seated contest (pos 2) (pos 0) false 13 second_done.db
unfolding program
progress_meets_example =
    progress_meets contest 1 0 (omega arith) (omega arith) (λ e. refl) 11 12 13 14 world
      {w1 = first_done} {w2 = second_done} refl refl

rewards_run : score_of Stage.knockout_stage contest 5 first_done.db ≡ pos 15
unfolding program
rewards_run = refl

abbrev open_tie : MatchRow
open_tie = match_row 202 (pos 1) (some (pos 1)) (some 13) (some 14)

abbrev saved_tie : MatchRow
saved_tie = record open_tie { country1_goals = some (pos 1); country2_goals = some (pos 1) }

decide_knockout-Level_example :
    (is_completed saved_tie ≡ true) × (decide_knockout open_tie saved_tie world ≡ (ok tt, world))
decide_knockout-Level_example =
    decide_knockout-Level open_tie saved_tie 13 14 (pos 1) world refl refl refl refl (inl refl)
