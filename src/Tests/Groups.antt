-- ===== src/Tests/Groups.antt =====
-- Finalizing the rankings of a group.
use mathlib.Core.List.Perm
use wcwcpp_backend.Storage.Users.{delete_user, without_user}
use wcwcpp_backend.Base.{
  String, ◌≡◌, refl, sym, ◌∙◌, some, inr, true, false, List, [], ◌∷◌, arith, Dict, lookup, nat_eq,
}
use wcwcpp_backend.Base.Int.{ℤ, pos, ◌≤ℤ◌, ◌+ℤ◌, ◌*ℤ◌, to_int32, add32, mul32}
use wcwcpp_backend.Sql.{World, Error, ok, err, monad}
use wcwcpp_backend.Entity.{Uuid}
use wcwcpp_backend.Storage.Search.{country_map, get_country_code_to_id_map}
use wcwcpp_backend.Storage.Award.{Stage, award, award_all}
use wcwcpp_backend.Storage.Award.Total.{score_of}
use wcwcpp_backend.Storage.FinalizeGroup.{
  finalize_group_rankings, finalize_statements, incomplete_count, finalized_count, set_rank,
  rank_countries, multiplier, base_points, score_picks, group_picks_of, pay_totals, total_of,
}
use wcwcpp_backend.Storage.FinalizeGroup.Totals.{worth_of}
use wcwcpp_backend.Storage.FinalizeGroup.Payout.{IsMapOrder, ranking, finalize_pays}
use wcwcpp_backend.Storage.ThirdPlace.{
  third_place, qualifier_of, set_qualifier, qualifier_picks, predictions, one_per_user, right_users,
  qualifier_statements, finalize_third_place_qualifier,
}
use wcwcpp_backend.Storage.ThirdPlace.Bonus.{finalize_third_pays, prediction_of, bonus_for}
use wcwcpp_backend.Storage.ThirdPlace.Decided.{IsRowOrder}
use wcwcpp_backend.Storage.ThirdPlace.Once.{finalize_third_once, finalize_third_unranked}
use wcwcpp_backend.Storage.FinalizeGroup.Guards.{finalize_refuses}
use wcwcpp_backend.Storage.FinalizeGroup.Bound.{score_picks-bounds}
use wcwcpp_backend.Rows.{GroupPickRow}
use wcwcpp_backend.Tests.Data.{contest, group_pick, closed_db, closed_world}

program : Unit {0}
unfolding monad finalize_group_rankings finalize_statements incomplete_count finalized_count
    set_rank rank_countries multiplier base_points score_picks group_picks_of pay_totals country_map
    get_country_code_to_id_map award to_int32 add32 mul32 ◌+ℤ◌ ◌*ℤ◌ third_place qualifier_of
    set_qualifier predictions one_per_user qualifier_picks right_users qualifier_statements
    finalize_third_place_qualifier award_all
program = tt

abbrev in_order : Dict Uuid ℤ → Dict Uuid ℤ
in_order t = t

in_order-IsMapOrder : IsMapOrder in_order
in_order-IsMapOrder = record { distinct = λ t h. h; same = λ t u h. refl }

abbrev codes : List String
codes = "BRA" ∷ "ARG" ∷ "FRA" ∷ "GER" ∷ []

abbrev finalized : World
finalized = (finalize_group_rankings in_order contest "A" codes closed_world).1

-- A perfect prediction scores 45, and BRA and ARG swapped 10 * 2 + 6 * 3 = 38.
scores :
    (score_of Stage.group_stage contest 5 finalized.db ≡ pos 45)
    × (score_of Stage.group_stage contest 6 finalized.db ≡ pos 38)
unfolding program
scores = (refl, refl)

finalize_pays_example :
    score_of Stage.group_stage contest 6 finalized.db
    ≡ score_of Stage.group_stage contest 6 closed_db
      +ℤ to_int32 (
          worth_of
            (ranking (country_map closed_db) 0 codes [])
            6
            (group_picks_of contest "A" closed_db))
unfolding program
finalize_pays_example =
    finalize_pays in_order in_order-IsMapOrder contest 6 "A" codes closed_world {w' = finalized}
      refl

finalize_refuses_example :
    (e : Error) × ((finalize_group_rankings in_order contest "A" codes finalized).0 ≡ err e)
    × ((finalize_group_rankings in_order contest "A" codes finalized).1.db ≡ finalized.db)
unfolding program
finalize_refuses_example = finalize_refuses in_order contest "A" codes finalized (inr (omega arith))

-- The server gives rows as they are stored.
abbrev as_stored : {A : Type 0} → List A → List A
as_stored rows = rows

as_stored-IsRowOrder : IsRowOrder as_stored
as_stored-IsRowOrder = record { permutes = λ xs. Perm.rfl }

abbrev qualified : World
qualified = (finalize_third_place_qualifier as_stored as_stored contest "A" true finalized).1

finalize_third_pays_example :
    score_of Stage.group_stage contest 5 qualified.db
    ≡ score_of Stage.group_stage contest 5 finalized.db
      +ℤ bonus_for true (prediction_of 5 (predictions contest "A" finalized.db))
unfolding program
finalize_third_pays_example =
    finalize_third_pays as_stored as_stored contest 5 "A" true finalized {w' = qualified} refl

-- Some time later user 6 is gone.
abbrev later : World
later = (delete_user 6 qualified).1

third_later :
    (third_place contest "A" qualified.db ≡ 13 ∷ []) × (third_place contest "A" later.db ≡ 13 ∷ [])
unfolding program delete_user without_user
third_later = (refl, refl)

column_then : qualifier_of contest 13 qualified.db ≡ some true ∷ []
unfolding program
column_then = refl

column_later : qualifier_of contest 13 later.db ≡ some true ∷ []
unfolding program delete_user without_user
column_later = refl

qualified-done :
    finalize_third_place_qualifier as_stored as_stored contest "A" true finalized
    ≡ (ok tt, qualified)
unfolding program
qualified-done = refl

finalize_third_once_example :
    (e : Error) × ((finalize_third_place_qualifier as_stored as_stored contest "A" false later).0
      ≡ err e)
    × ((finalize_third_place_qualifier as_stored as_stored contest "A" false later).1.db ≡ later.db)
finalize_third_once_example =
    finalize_third_once as_stored as_stored as_stored as_stored contest 13 "A" true false finalized
      qualified later as_stored-IsRowOrder as_stored-IsRowOrder qualified-done third_later.0
      third_later.1 (column_later ∙ sym column_then)

finalize_third_unranked_example :
    (e : Error) × ((finalize_third_place_qualifier as_stored as_stored contest "A" true
        closed_world).0
      ≡ err e)
    × ((finalize_third_place_qualifier as_stored as_stored contest "A" true closed_world).1.db
        ≡ closed_db)
unfolding program
finalize_third_unranked_example =
    finalize_third_unranked as_stored as_stored contest "A" true closed_world as_stored-IsRowOrder
      refl

bonus : score_of Stage.group_stage contest 5 qualified.db ≡ pos 50
unfolding program
bonus = refl

-- Bob's picks: ARG first, BRA second and FRA third.
abbrev bob_picks : List GroupPickRow
bob_picks = group_pick 6 12 (pos 1) ∷ group_pick 6 11 (pos 2) ∷ group_pick 6 13 (pos 3) ∷ []

abbrev group_ranks : Dict Uuid ℤ
group_ranks = (11, pos 1) ∷ (12, pos 2) ∷ (13, pos 3) ∷ (14, pos 4) ∷ []

score_picks-bounds_example :
    (pos 0 ≤ℤ total_of (lookup 6 (score_picks group_ranks bob_picks [])))
    × (total_of (lookup 6 (score_picks group_ranks bob_picks [])) ≤ℤ pos 45)
score_picks-bounds_example =
    score_picks-bounds group_ranks 6 bob_picks (group_pick 6 12 (pos 1)) (group_pick 6 11 (pos 2))
      (group_pick 6 13 (pos 3)) (pos 2) (pos 1) (pos 3) refl refl refl refl refl refl
      (λ e. ground (arith, e)) (λ e. ground (arith, e)) (λ e. ground (arith, e))
