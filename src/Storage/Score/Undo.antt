-- ===== src/Storage/Score/Undo.antt =====
-- Taking a score out again: the two directions of the arithmetic of `UpdateMatch`.
use wcwcpp_backend.Base.{◌≡◌, arith, Bool-cases, inl, inr, ◌==◌, ◌∙◌, sym}
use wcwcpp_backend.Base.Int.{
  ℤ, pos, add32, sub32, u32-add, u32-int32, u32-sub, int32_of_u32, int32_self, u32-lt, IsInt32,
  ltb_ℤ, int_eq,
}
use wcwcpp_backend.Rows.{GroupStandingRow}
use wcwcpp_backend.Storage.Score.{
  Score, add_goals, remove_goals, win, draw, lose, undo_win, undo_draw, undo_lose, apply_score,
  revert_score,
}

pub sub32-add32 : (a b : ℤ) → IsInt32 a → sub32 (add32 a b) b ≡ a
unfolding sub32 add32
sub32-add32 a b h =
    int32_of_u32 _ a (simp (u32-sub, u32-add, u32-int32) (omega (arith, u32-lt a, u32-lt b)))
    ∙ sym (int32_self a h)

-- The columns of a standing hold int32 values, and the goal difference is that of the goals.
pub record Fits (s : GroupStandingRow) : Type 0 where
  pub points : IsInt32 s.points
  pub wins : IsInt32 s.wins
  pub draws : IsInt32 s.draws
  pub losses : IsInt32 s.losses
  pub gf : IsInt32 s.gf
  pub ga : IsInt32 s.ga
  pub cs : IsInt32 s.cs
  pub gd : s.gd ≡ sub32 s.gf s.ga

module _ (s : GroupStandingRow) (h : Fits s) (g1 g2 c : ℤ) where
  remove-add_goals-win : undo_win (remove_goals g1 g2 c (win (add_goals g1 g2 c s))) ≡ s
  unfolding undo_win remove_goals win add_goals
  remove-add_goals-win = ground (
    arith,
    sub32-add32 s.gf g1,
    sub32-add32 s.ga g2,
    sub32-add32 s.cs c,
    sub32-add32 s.wins (pos 1),
    sub32-add32 s.points (pos 3),
  )

  remove-add_goals-draw : undo_draw (remove_goals g1 g2 c (draw (add_goals g1 g2 c s))) ≡ s
  unfolding undo_draw remove_goals draw add_goals
  remove-add_goals-draw = ground (
    arith,
    sub32-add32 s.gf g1,
    sub32-add32 s.ga g2,
    sub32-add32 s.cs c,
    sub32-add32 s.draws (pos 1),
    sub32-add32 s.points (pos 1),
  )

  remove-add_goals-lose : undo_lose (remove_goals g1 g2 c (lose (add_goals g1 g2 c s))) ≡ s
  unfolding undo_lose remove_goals lose add_goals
  remove-add_goals-lose = ground (
    arith,
    sub32-add32 s.gf g1,
    sub32-add32 s.ga g2,
    sub32-add32 s.cs c,
    sub32-add32 s.losses (pos 1),
  )

-- Reverting a score that was counted gives both standings back, where the columns are int32 values
-- and the goal difference is goals for minus goals against, in int32.
pub revert-apply_score :
    (g : Score) (s1 s2 : GroupStandingRow)
    → Fits s1
    → Fits s2
    → revert_score g (apply_score g (s1, s2)) ≡ (s1, s2)
unfolding revert_score apply_score
revert-apply_score g s1 s2 h1 h2 = elim (Bool-cases (ltb_ℤ g.goals2 g.goals1)) [
  | inl won ↦ rw won (λ i. (
    remove-add_goals-win s1 h1 g.goals1 g.goals2 g.conduct1 i,
    remove-add_goals-lose s2 h2 g.goals2 g.goals1 g.conduct2 i,
  ))
  | inr other ↦ elim (Bool-cases (g.goals1 == g.goals2)) [
    | inl tie ↦
        rw (other, tie)
          (λ i. (
            remove-add_goals-draw s1 h1 g.goals1 g.goals2 g.conduct1 i,
            remove-add_goals-draw s2 h2 g.goals2 g.goals1 g.conduct2 i,
          ))
    | inr lost ↦
        rw (other, lost)
          (λ i. (
            remove-add_goals-lose s1 h1 g.goals1 g.goals2 g.conduct1 i,
            remove-add_goals-win s2 h2 g.goals2 g.goals1 g.conduct2 i,
          ))
  ]
]
