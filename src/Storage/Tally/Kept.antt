-- ===== src/Storage/Tally/Kept.antt =====
-- The other actions keep the group table what the matches give.
use wcwcpp_backend.Base.{
  ◌≡◌, ℕ, String, Bool, some, List, [], ◌∷◌, Dict, lookup, string_eq, if_elim, suc,
}
use wcwcpp_backend.Base.Int.{ℤ, pos}
use wcwcpp_backend.Entity.{Uuid}
use wcwcpp_backend.Rows.{Db}
use wcwcpp_backend.Sql.{commit, ok, err, driver}
use wcwcpp_backend.Sql.Post.{
  Yields, Then, then-Yields, bind-Yields, exec-Yields, pure-Yields, query-Yields, write-Yields,
  on_error-Yields, or_fail-Yields, fail_if-Yields, query_one-Yields,
}
use wcwcpp_backend.Sql.Keeps.{Keeps, in_tx-Keeps}
use wcwcpp_backend.Storage.Award.{Stage, award, paid, is_refused}
use wcwcpp_backend.Storage.Award.Elsewhere.{award_all-elsewhere}
use wcwcpp_backend.Storage.FinalizeGroup.{
  finalize_group_rankings, finalize_statements, rank_countries, set_rank, pay_totals,
}
use wcwcpp_backend.Storage.ThirdPlace.{
  finalize_third_place_qualifier, qualifier_statements, set_qualifier,
}
use wcwcpp_backend.Storage.Tally.{IsTallied}
use wcwcpp_backend.Storage.Tally.Rows.{All-update}
use wcwcpp_backend.Storage.Tally.Knockout.{IsKept}
use wcwcpp_backend.Storage.Search.{get_country_code_to_id_map}

set_rank-IsKept :
    (contest c : Uuid) (rank : ℤ) (db : Db) → IsKept db → IsKept (set_rank contest c rank db)
unfolding set_rank
set_rank-IsKept contest c rank db (d, s, k) =
    (d, s, All-update (IsTallied db.matches) _ _ db.group_standings (λ r t _. t) k)

set_qualifier-IsKept :
    (contest c : Uuid) (b : Bool) (db : Db) → IsKept db → IsKept (set_qualifier contest c b db)
unfolding set_qualifier
set_qualifier-IsKept contest c b db (d, s, k) =
    (d, s, All-update (IsTallied db.matches) _ _ db.group_standings (λ r t _. t) k)

pay_totals-Yields :
    (contest : Uuid) (totals : Dict Uuid ℤ)
    → Yields IsKept (pay_totals contest totals) (λ _. IsKept)
unfolding pay_totals award paid
pay_totals-Yields contest [] = pure-Yields tt
pay_totals-Yields contest ((user, points) ∷ rest) =
    then-Yields IsKept
      (on_error-Yields _ (
        exec-Yields (award Stage.group_stage contest user points) λ db p.
          if_elim (Then _) (is_refused Stage.group_stage contest user points db)
            (err (driver "integer out of range"))
            (ok (tt, paid Stage.group_stage contest user points db)) tt p))
      (pay_totals-Yields contest rest)

rank_countries-Yields :
    (contest : Uuid) (codes : Dict String Uuid) (idx : ℕ) (cs : List String) (ranks : Dict Uuid ℤ)
    → Yields IsKept (rank_countries contest codes idx cs ranks) (λ _. IsKept)
unfolding rank_countries
rank_countries-Yields contest codes idx [] ranks = pure-Yields ranks
rank_countries-Yields contest codes idx (c ∷ cs) ranks =
    bind-Yields (λ country db. IsKept db × (lookup c codes ≡ some country))
      (or_fail-Yields IsKept _ _)
      λ country.
        then-Yields IsKept
          (on_error-Yields _ (write-Yields _ (λ db p. set_rank-IsKept contest country _ db p.0)))
          (rank_countries-Yields contest codes (suc idx) cs _)

pub finalize_group_rankings-Keeps :
    (order : Dict Uuid ℤ → Dict Uuid ℤ) (contest : Uuid) (letter : String) (codes : List String)
    → Keeps IsKept (finalize_group_rankings order contest letter codes)
unfolding finalize_group_rankings finalize_statements get_country_code_to_id_map
finalize_group_rankings-Keeps order contest letter codes = in_tx-Keeps IsKept _ _ (
    bind-Yields (λ _. IsKept) (on_error-Yields _ (query-Yields _ (λ db p. p)))
      λ open_matches.
        then-Yields (λ db. IsKept db × (_ ≡ _)) (fail_if-Yields IsKept _ _)
          (bind-Yields (λ _. IsKept) (on_error-Yields _ (query-Yields _ (λ db p. p.0)))
            λ finalized.
              then-Yields (λ db. IsKept db × (_ ≡ _)) (fail_if-Yields IsKept _ _)
                (bind-Yields (λ _. IsKept) (on_error-Yields _ (query-Yields _ (λ db p. p.0)))
                  λ ids.
                    bind-Yields (λ _. IsKept) (rank_countries-Yields contest ids 0 codes [])
                      λ ranks.
                        bind-Yields (λ _. IsKept) (on_error-Yields _ (query-Yields _ (λ db p. p)))
                          λ picks.
                            then-Yields IsKept (pay_totals-Yields contest _) (pure-Yields commit))))

pub finalize_third_place_qualifier-Keeps :
    (row_order : List Uuid → List Uuid) (pick_order : List (Uuid × Bool) → List (Uuid × Bool))
    (contest : Uuid) (letter : String) (qualifies : Bool)
    → Keeps IsKept (finalize_third_place_qualifier row_order pick_order contest letter qualifies)
unfolding finalize_third_place_qualifier qualifier_statements
finalize_third_place_qualifier-Keeps row_order pick_order contest letter qualifies =
    in_tx-Keeps IsKept _ _ (
      bind-Yields (λ _. IsKept) (on_error-Yields _ (query_one-Yields _ (λ db a rest p e. p)))
        λ country.
          bind-Yields (λ _. IsKept) (on_error-Yields _ (query_one-Yields _ (λ db a rest p e. p)))
            λ existing.
              then-Yields (λ db. IsKept db × (_ ≡ _)) (fail_if-Yields IsKept _ _)
                (then-Yields IsKept
                  (on_error-Yields _ (
                    write-Yields _ (λ db p. set_qualifier-IsKept contest country qualifies db p.0)))
                  (bind-Yields (λ _. IsKept) (on_error-Yields _ (query-Yields _ (λ db p. p)))
                    λ picks.
                      then-Yields IsKept
                        (award_all-elsewhere IsKept (λ db rows p. p) _ Stage.group_stage contest
                          (pos 5) _)
                        (pure-Yields commit))))
