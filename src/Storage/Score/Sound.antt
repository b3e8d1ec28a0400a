-- ===== src/Storage/Score/Sound.antt =====
-- Counting a score keeps a standing's derived columns right: the goal difference is the difference
-- of the goals, and the points are three for a win and one for a draw, as int32 computes them.
use wcwcpp_backend.Base.{◌≡◌, refl, arith, if_elim}
use wcwcpp_backend.Base.Int.{
  ℤ, pos, ◌+ℤ◌, to_int32, add32, sub32, u32-add, u32-int32, u32-sub, int32_of_u32, u32-lt,
}
use wcwcpp_backend.Rows.{GroupStandingRow}
use wcwcpp_backend.Storage.Score.{
  Score, add_goals, win, draw, lose, apply_score, remove_goals, undo_win, undo_draw, undo_lose,
  revert_score,
}

-- `3 * wins + draws`.
abbrev pub earned : ℤ → ℤ → ℤ
earned wins draws = wins +ℤ wins +ℤ wins +ℤ draws

pub record IsSound (s : GroupStandingRow) : Type 0 where
  pub difference : s.gd ≡ sub32 s.gf s.ga
  pub league : s.points ≡ to_int32 (earned s.wins s.draws)

earned-win :
    (w d : ℤ) → add32 (to_int32 (earned w d)) (pos 3) ≡ to_int32 (earned (add32 w (pos 1)) d)
unfolding add32
earned-win w d = int32_of_u32 _ _ (simp (u32-add, u32-int32) (omega arith))

earned-draw :
    (w d : ℤ) → add32 (to_int32 (earned w d)) (pos 1) ≡ to_int32 (earned w (add32 d (pos 1)))
unfolding add32
earned-draw w d = int32_of_u32 _ _ (simp (u32-add, u32-int32) (omega arith))

win-IsSound : {s : GroupStandingRow} → IsSound s → IsSound (win s)
unfolding win
win-IsSound {s} h = record {
  difference = h.difference;
  league = rw (h.league) (earned-win s.wins s.draws);
}

draw-IsSound : {s : GroupStandingRow} → IsSound s → IsSound (draw s)
unfolding draw
draw-IsSound {s} h = record {
  difference = h.difference;
  league = rw (h.league) (earned-draw s.wins s.draws);
}

lose-IsSound : {s : GroupStandingRow} → IsSound s → IsSound (lose s)
unfolding lose
lose-IsSound h = record { difference = h.difference; league = h.league }

add_goals-IsSound : (g1 g2 c : ℤ) {s : GroupStandingRow} → IsSound s → IsSound (add_goals g1 g2 c s)
unfolding add_goals
add_goals-IsSound g1 g2 c h = record { difference = refl; league = h.league }

abbrev pub BothSound : GroupStandingRow × GroupStandingRow → Type 0
BothSound t = IsSound t.0 × IsSound t.1

pub apply_score-IsSound :
    (g : Score) (s1 s2 : GroupStandingRow)
    → IsSound s1
    → IsSound s2
    → BothSound (apply_score g (s1, s2))
unfolding apply_score
apply_score-IsSound g s1 s2 h1 h2 =
    let k1 = add_goals-IsSound g.goals1 g.goals2 g.conduct1 h1 in
    let k2 = add_goals-IsSound g.goals2 g.goals1 g.conduct2 h2 in
    if_elim BothSound _ _ _ (win-IsSound k1, lose-IsSound k2)
      (if_elim BothSound _ _ _ (draw-IsSound k1, draw-IsSound k2) (lose-IsSound k1, win-IsSound k2))

-- Taking a score out keeps the columns right as well.
earned-undo_win :
    (w d : ℤ) → sub32 (to_int32 (earned w d)) (pos 3) ≡ to_int32 (earned (sub32 w (pos 1)) d)
unfolding sub32
earned-undo_win w d =
    int32_of_u32 _ _ (simp (u32-add, u32-int32, u32-sub) (omega (arith, u32-lt w, u32-lt d)))

earned-undo_draw :
    (w d : ℤ) → sub32 (to_int32 (earned w d)) (pos 1) ≡ to_int32 (earned w (sub32 d (pos 1)))
unfolding sub32
earned-undo_draw w d =
    int32_of_u32 _ _ (simp (u32-add, u32-int32, u32-sub) (omega (arith, u32-lt w, u32-lt d)))

undo_win-IsSound : {s : GroupStandingRow} → IsSound s → IsSound (undo_win s)
unfolding undo_win
undo_win-IsSound {s} h = record {
  difference = h.difference;
  league = rw (h.league) (earned-undo_win s.wins s.draws);
}

undo_draw-IsSound : {s : GroupStandingRow} → IsSound s → IsSound (undo_draw s)
unfolding undo_draw
undo_draw-IsSound {s} h = record {
  difference = h.difference;
  league = rw (h.league) (earned-undo_draw s.wins s.draws);
}

undo_lose-IsSound : {s : GroupStandingRow} → IsSound s → IsSound (undo_lose s)
unfolding undo_lose
undo_lose-IsSound h = record { difference = h.difference; league = h.league }

remove_goals-IsSound :
    (g1 g2 c : ℤ) {s : GroupStandingRow} → IsSound s → IsSound (remove_goals g1 g2 c s)
unfolding remove_goals
remove_goals-IsSound g1 g2 c h = record { difference = refl; league = h.league }

pub revert_score-IsSound :
    (g : Score) (s1 s2 : GroupStandingRow)
    → IsSound s1
    → IsSound s2
    → BothSound (revert_score g (s1, s2))
unfolding revert_score
revert_score-IsSound g s1 s2 h1 h2 =
    let k1 = remove_goals-IsSound g.goals1 g.goals2 g.conduct1 h1 in
    let k2 = remove_goals-IsSound g.goals2 g.goals1 g.conduct2 h2 in
    if_elim BothSound _ _ _ (undo_win-IsSound k1, undo_lose-IsSound k2)
      (if_elim BothSound _ _ _ (undo_draw-IsSound k1, undo_draw-IsSound k2)
        (undo_lose-IsSound k1, undo_win-IsSound k2))
