-- ===== src/Storage/FinalizeGroup/Guards.antt =====
-- When `FinalizeGroupRankings` refuses.
use wcwcpp_backend.Base.{String, ◌<◌, ◌≡◌, refl, ◌⊎◌, inl, inr, List, arith, Dict}
use wcwcpp_backend.Base.Int.{ℤ}
use wcwcpp_backend.Entity.{Uuid}
use wcwcpp_backend.Rows.{Db}
use wcwcpp_backend.Sql.{Error, World, err, TxEnd}
use wcwcpp_backend.Sql.Laws.{in_tx-FailsClean, FailsClean_lem}
use wcwcpp_backend.Sql.Post.{
  Yields, AtEnd, bind-Yields, then-Yields, on_error-Yields, query-Yields, fail_if-Yields,
  fact-Yields, stopped, in_tx-Yields, weaken-Yields, Yields_never,
}
use wcwcpp_backend.Storage.FinalizeGroup.{
  incomplete_count, finalized_count, finalize_statements, finalize_group_rankings,
}

module _ (order : Dict Uuid ℤ → Dict Uuid ℤ) (contest : Uuid) (letter : String)
    (codes : List String) where
  abbrev Never : Db → TxEnd → Db → Type 0
  Never d = AtEnd (λ db. db ≡ d) (λ _. ⊥)

  incomplete_stops :
      (d : Db)
      → 0 < incomplete_count contest letter d
      → Yields (λ db. db ≡ d) (finalize_statements order contest letter codes) (Never d)
  unfolding finalize_statements
  incomplete_stops d h =
      bind-Yields (λ n db. (db ≡ d) × (0 < n))
        (on_error-Yields _ (query-Yields _ (λ db p. (p, rw p h))))
        λ n. fact-Yields λ positive. stopped _ _ _ _ _ (ground arith)

  finalized_stops :
      (d : Db)
      → 0 < finalized_count contest letter d
      → Yields (λ db. db ≡ d) (finalize_statements order contest letter codes) (Never d)
  unfolding finalize_statements
  finalized_stops d h =
      bind-Yields (λ n db. db ≡ d) (on_error-Yields _ (query-Yields _ (λ db p. p)))
        λ n.
          then-Yields (λ db. db ≡ d)
            (weaken-Yields (λ db p. p) (λ _ db p. p.0) (fail_if-Yields (λ db. db ≡ d) _ _))
            (bind-Yields (λ k db. (db ≡ d) × (0 < k))
              (on_error-Yields _ (query-Yields _ (λ db p. (p, rw p h))))
              λ k. fact-Yields λ positive. stopped _ _ _ _ _ (ground arith))

  refuses :
      (w : World)
      → Yields (λ db. db ≡ w.db) (finalize_statements order contest letter codes) (Never w.db)
      → (e : Error) × ((finalize_group_rankings order contest letter codes w).0 ≡ err e)
        × ((finalize_group_rankings order contest letter codes w).1.db ≡ w.db)
  unfolding finalize_group_rankings
  refuses w h =
      let m = finalize_group_rankings order contest letter codes in
      let (e, failed) = Yields_never m (in_tx-Yields _ _ h) w refl in
      (e, failed, FailsClean_lem m w (in_tx-FailsClean _ _ _) failed)

-- A group with an open match, and a group with a rank, is refused: the run reports an error and the
-- database is as it was.
pub finalize_refuses :
    (order : Dict Uuid ℤ → Dict Uuid ℤ) (contest : Uuid) (letter : String) (codes : List String)
    (w : World)
    → (0 < incomplete_count contest letter w.db) ⊎ (0 < finalized_count contest letter w.db)
    → (e : Error) × ((finalize_group_rankings order contest letter codes w).0 ≡ err e)
      × ((finalize_group_rankings order contest letter codes w).1.db ≡ w.db)
finalize_refuses order contest letter codes w (inl h) =
    refuses order contest letter codes w (incomplete_stops order contest letter codes w.db h)
finalize_refuses order contest letter codes w (inr h) =
    refuses order contest letter codes w (finalized_stops order contest letter codes w.db h)
