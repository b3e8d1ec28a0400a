-- ===== src/Storage/Knockout/Rewards.antt =====
-- The points of a decided knockout match.
use wcwcpp_backend.Base.{
  String, ◌≡◌, refl, sym, ap, ◌∙◌, ◌⊎◌, inl, inr, true, List, [], ◌∷◌, arith, ◌==◌, nat_eq,
}
use wcwcpp_backend.Base.Int.{ℤ, pos, ◌+ℤ◌, ltb_ℤ, int_eq}
use wcwcpp_backend.Entity.{Uuid}
use wcwcpp_backend.Rows.{Db}
use wcwcpp_backend.Sql.{wrap, query, ◌>>=◌, write, on_error, World, ok}
use wcwcpp_backend.Sql.Post.{
  Yields, write-Yields, on_error-Yields, then-Yields, bind-Yields, query-Yields, pure-Yields,
  if-Yields, weaken-Yields, fact-Yields, Yields_ok,
}
use wcwcpp_backend.Storage.Award.{Stage, award_all}
use wcwcpp_backend.Storage.Award.Total.{score_of, points_for, award_all-Yields, +ℤ_zero}
use wcwcpp_backend.Storage.Knockout.{
  seat, advance_winner, seat_loser, achieved, set_reached, picked_users, reward_winner,
  reward_loser, progress,
}

-- What the statements before and after the payments leave alone: the user's score, and the picks.
module _ (contest user winner : Uuid) (reached : ℤ) (x : ℤ) (us : List Uuid) where
  abbrev Before : Db → Type 0
  Before db =
      (score_of Stage.knockout_stage contest user db ≡ x)
      × (picked_users contest winner reached db ≡ us)

  advance-Before :
      (round index : ℤ) (c : Uuid)
      → Yields Before (advance_winner contest round index c) (λ _. Before)
  unfolding advance_winner seat picked_users
  advance-Before round index c =
      if-Yields (ltb_ℤ round (pos 5)) (on_error-Yields _ (write-Yields _ (λ db p. p)))
        (pure-Yields tt)

  seat_loser-Before :
      (round index : ℤ) (c : Uuid) → Yields Before (seat_loser contest round index c) (λ _. Before)
  unfolding seat_loser seat picked_users
  seat_loser-Before round index c =
      if-Yields (round == pos 4) (on_error-Yields _ (write-Yields _ (λ db p. p))) (pure-Yields tt)

  set_reached-Before :
      (c : Uuid) (round : ℤ) (text : String)
      → Yields Before (on_error (wrap text) (write (set_reached contest c round))) (λ _. Before)
  unfolding set_reached picked_users
  set_reached-Before c round text = on_error-Yields _ (write-Yields _ (λ db p. p))

  After : ℤ → Db → Type 0
  After points db = score_of Stage.knockout_stage contest user db ≡ x +ℤ points_for user points us

  pay-After :
      (points : ℤ)
      → Yields Before
          (do
            users ←
                on_error
                  (wrap "failed to query knockout picks")
                  (query (picked_users contest winner reached))
            award_all
                (wrap "failed to update contest standings for user")
                Stage.knockout_stage
                contest
                points
                users)
          (λ _. After points)
  unfolding After
  pay-After points =
      bind-Yields (λ users db. (score_of Stage.knockout_stage contest user db ≡ x) × (users ≡ us))
        (on_error-Yields _ (query-Yields _ (λ db p. p)))
        (λ users. fact-Yields λ e. rw e (
          award_all-Yields Stage.knockout_stage contest user points
            (wrap "failed to update contest standings for user") us x))

  -- `reward_winner` with points to give, and with none.
  reward_winner-After :
      (points : ℤ)
      → ltb_ℤ (pos 0) reached ≡ true
      → ltb_ℤ (pos 0) points ≡ true
      → Yields Before (reward_winner contest winner reached points) (λ _. After points)
  unfolding reward_winner
  reward_winner-After points some_round some_points =
      rw (some_round, some_points)
        (then-Yields Before (set_reached-Before winner reached _) (pay-After points))

  reward_loser-After :
      (points round : ℤ) (loser : Uuid)
      → Yields (After points) (reward_loser contest round loser) (λ _. After points)
  unfolding reward_loser set_reached After
  reward_loser-After points round loser =
      if-Yields (round == pos 4) (on_error-Yields _ (write-Yields _ (λ db p. p))) (pure-Yields tt)

  points_for-zero : (vs : List Uuid) → points_for user (pos 0) vs ≡ pos 0
  points_for-zero [] = refl
  points_for-zero (v ∷ vs) = ground (arith, points_for-zero vs, +ℤ_zero (pos 0))

  Before-After : (db : Db) → Before db → After (pos 0) db
  unfolding After
  Before-After db p = p.0 ∙ sym (ap (◌+ℤ◌ x) (points_for-zero us) ∙ +ℤ_zero x)

-- Either a round is worth something, or it is not one of the five.
achieved-cases :
    (round index : ℤ)
    → ((ltb_ℤ (pos 0) (achieved round index).0 ≡ true)
        × (ltb_ℤ (pos 0) (achieved round index).1 ≡ true))
      ⊎ (achieved round index ≡ (pos 0, pos 0))
unfolding achieved
achieved-cases round index = ground arith

no_round :
    (contest winner : Uuid) (P : Db → Type 0)
    → Yields P (reward_winner contest winner (pos 0) (pos 0)) (λ _. P)
unfolding reward_winner
no_round contest winner P = pure-Yields tt

module _ (contest user : Uuid) (round index : ℤ) (winner loser : Uuid) (x : ℤ)
    (us : List Uuid) where
  reward-After :
      Yields
        (Before contest user winner (achieved round index).0 x us)
        (reward_winner contest winner (achieved round index).0 (achieved round index).1)
        (λ _. After contest user winner (achieved round index).0 x us (achieved round index).1)
  reward-After = elim (achieved-cases round index) [
    | inl worth ↦
        reward_winner-After contest user winner (achieved round index).0 x us
          (achieved round index).1 worth.0 worth.1
    | inr none_of_five ↦ rw none_of_five (
        weaken-Yields (λ db p. Before-After contest user winner (pos 0) x us db p) (λ _ db p. p)
          (no_round contest winner (After contest user winner (pos 0) x us (pos 0))))
  ]

  progress-After :
      Yields
        (Before contest user winner (achieved round index).0 x us)
        (progress contest round index (winner, loser))
        (λ _. After contest user winner (achieved round index).0 x us (achieved round index).1)
  unfolding progress
  progress-After =
      then-Yields _
        (advance-Before contest user winner (achieved round index).0 x us round index winner)
        (then-Yields _
          (seat_loser-Before contest user winner (achieved round index).0 x us round index loser)
          (then-Yields _ reward-After (
            reward_loser-After contest user winner (achieved round index).0 x us
              (achieved round index).1 round loser)))

-- When a decided knockout match has been recorded, every user's knockout score has grown by the
-- points of the round that the winner has reached, once for each of the user's picks that put the
-- winner in that round.
pub progress_rewards :
    (contest user : Uuid) (round index : ℤ) (winner loser : Uuid) (w : World) {w' : World}
    → progress contest round index (winner, loser) w ≡ (ok tt, w')
    → score_of Stage.knockout_stage contest user w'.db
      ≡ score_of Stage.knockout_stage contest user w.db
        +ℤ points_for user
            (achieved round index).1
            (picked_users contest winner (achieved round index).0 w.db)
unfolding After
progress_rewards contest user round index winner loser w e =
    Yields_ok (progress-After contest user round index winner loser _ _) w (refl, refl) e
