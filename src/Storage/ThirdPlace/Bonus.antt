-- ===== src/Storage/ThirdPlace/Bonus.antt =====
-- The bonus points of `FinalizeThirdPlaceQualifier`.
use wcwcpp_backend.Base.{
  String, ◌≡◌, refl, Bool, Option, none, some, List, [], ◌∷◌, ◌==◌, nat_eq, any, if◌then◌else◌,
  arith, ◌∙◌, ap,
}
use wcwcpp_backend.Base.Int.{ℤ, pos, ◌+ℤ◌}
use wcwcpp_backend.Entity.{Uuid}
use wcwcpp_backend.Rows.{Db}
use wcwcpp_backend.Sql.{World, ok, wrap, commit}
use wcwcpp_backend.Sql.Post.{
  Yields, AtEnd, bind-Yields, then-Yields, on_error-Yields, query-Yields, query_one-Yields,
  write-Yields, fail_if-Yields, pure-Yields, in_tx-Yields, weaken-Yields, fact-Yields, Yields_ok,
}
use wcwcpp_backend.Storage.Award.{Stage}
use wcwcpp_backend.Storage.Award.Total.{score_of, points_for, award_all-Yields}
use wcwcpp_backend.Storage.ThirdPlace.{
  set_qualifier, bool_eq, one_per_user, predictions, qualifier_picks, right_users,
  qualifier_statements, finalize_third_place_qualifier,
}

-- The prediction of a user: that of the first row.
abbrev pub prediction_of : Uuid → List (Uuid × Bool) → Option Bool
prediction_of user [] = none
prediction_of user ((u, b) ∷ ps) =
    let rest = prediction_of user ps in if u == user then some b else rest

-- 5 points for a right prediction.
abbrev pub bonus_for : Bool → Option Bool → ℤ
bonus_for qualifies none = pos 0
bonus_for qualifies (some b) = if bool_eq b qualifies then pos 5 else pos 0

-- A user who was seen gets nothing more, and any other user the bonus of the first row.
points_for-one_per_user :
    (user : Uuid) (qualifies : Bool) (seen : List Uuid) (ps : List (Uuid × Bool))
    → points_for user (pos 5) (right_users qualifies (one_per_user seen ps))
      ≡ (if any (λ u. u == user) seen then pos 0 else bonus_for qualifies (prediction_of user ps))
unfolding one_per_user right_users ◌+ℤ◌
points_for-one_per_user user qualifies seen [] = ground arith
points_for-one_per_user user qualifies seen ((u, b) ∷ ps) = ground (
  arith,
  points_for-one_per_user user qualifies seen ps,
  points_for-one_per_user user qualifies (u ∷ seen) ps,
)

module _ (row_order : List Uuid → List Uuid) (pick_order : List (Uuid × Bool) → List (Uuid × Bool))
    (contest user : Uuid) (letter : String) (qualifies : Bool) (x : ℤ)
    (ps : List (Uuid × Bool)) where
  abbrev Start : Db → Type 0
  Start db =
      (score_of Stage.group_stage contest user db ≡ x)
      × (qualifier_picks pick_order contest letter db ≡ ps)

  abbrev Paid : Db → Type 0
  Paid db =
      score_of Stage.group_stage contest user db
      ≡ x +ℤ points_for user (pos 5) (right_users qualifies ps)

  qualifier_statements-Yields :
      Yields Start
        (qualifier_statements row_order pick_order contest letter qualifies)
        (AtEnd Start Paid)
  unfolding qualifier_statements set_qualifier qualifier_picks predictions
  qualifier_statements-Yields =
      bind-Yields (λ _. Start) (on_error-Yields _ (query_one-Yields _ (λ db a rest p e. p)))
        λ c.
          bind-Yields (λ _. Start) (on_error-Yields _ (query_one-Yields _ (λ db a rest p e. p)))
            λ q.
              then-Yields Start
                (weaken-Yields (λ db p. p) (λ _ db p. p.0) (fail_if-Yields Start _ _))
                (then-Yields Start (on_error-Yields _ (write-Yields _ (λ db p. p))) (
                  bind-Yields
                    (λ picks db. (score_of Stage.group_stage contest user db ≡ x) × (picks ≡ ps))
                    (on_error-Yields _
                      (query-Yields (qualifier_picks pick_order contest letter) (λ db p. p)))
                    λ picks. fact-Yields λ e.
                      then-Yields Paid
                        (rw e (
                          award_all-Yields Stage.group_stage contest user (pos 5)
                            (wrap "failed to award bonus points") (right_users qualifies ps) x))
                        (pure-Yields commit)))

-- When the third-place qualifier of a group has been finalized, the group score of every user has
-- grown by 5 if the user's prediction for that group was right, and is the same otherwise and for a
-- user without one. Of contradictory predictions of one user the first in the server's order counts,
-- and the user is paid once at most.
pub finalize_third_pays :
    (row_order : List Uuid → List Uuid) (pick_order : List (Uuid × Bool) → List (Uuid × Bool))
    (contest user : Uuid) (letter : String) (qualifies : Bool) (w : World) {w' : World}
    → finalize_third_place_qualifier row_order pick_order contest letter qualifies w ≡ (ok tt, w')
    → score_of Stage.group_stage contest user w'.db
      ≡ score_of Stage.group_stage contest user w.db
        +ℤ bonus_for qualifies (prediction_of user (pick_order (predictions contest letter w.db)))
unfolding finalize_third_place_qualifier qualifier_picks
finalize_third_pays row_order pick_order contest user letter qualifies w e =
    Yields_ok
      (in_tx-Yields _ _
        (qualifier_statements-Yields row_order pick_order contest user letter qualifies _ _))
      w (refl, refl) e
    ∙ ap (λ b. score_of Stage.group_stage contest user w.db +ℤ b)
        (points_for-one_per_user user qualifies [] (pick_order (predictions contest letter w.db)))
