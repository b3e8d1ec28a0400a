-- ===== src/Storage/FinalizeGroup/Payout.antt =====
-- What a successful `FinalizeGroupRankings` pays to each user.
use wcwcpp_backend.Base.{
  ℕ, suc, String, ◌≡◌, refl, sym, ap, ◌∙◌, Bool, Option, none, some, List, [], ◌∷◌, arith, lookup,
  insert, Dict, ◌==◌, nat_eq, string_eq, if◌then◌else◌,
}
use wcwcpp_backend.Base.Int.{ℤ, pos, ◌+ℤ◌, to_int32, int_laws}
use wcwcpp_backend.Entity.{Uuid}
use wcwcpp_backend.Rows.{Db, GroupPickRow}
use wcwcpp_backend.Sql.{Error, World, ok, commit, pure, fail_if, ◌>>◌}
use wcwcpp_backend.Sql.Post.{
  Yields, AtEnd, on_error-Yields, then-Yields, bind-Yields, query-Yields, write-Yields, pure-Yields,
  or_fail-Yields, fail_if-Yields, fact-Yields, weaken-Yields, in_tx-Yields, Yields_ok,
}
use wcwcpp_backend.Storage.Search.{country_map, get_country_code_to_id_map}
use wcwcpp_backend.Storage.Award.{Stage}
use wcwcpp_backend.Storage.Award.Total.{score_of, award-Yields, +ℤ_zero}
use wcwcpp_backend.Storage.FinalizeGroup.{
  set_rank, rank_countries, score_picks, group_picks_of, pay_totals, finalize_statements,
  finalize_group_rankings, total_of,
}
use wcwcpp_backend.Storage.FinalizeGroup.Totals.{
  NodupKeys, total_for, worth_of, score_picks-NodupKeys, total_for-score_picks,
}

-- What the order of a map's entries must respect: the entries, each once.
pub record IsMapOrder (order : Dict Uuid ℤ → Dict Uuid ℤ) : Type 0 where
  pub distinct : (t : Dict Uuid ℤ) → NodupKeys t → NodupKeys (order t)
  pub same : (t : Dict Uuid ℤ) (u : Uuid) → NodupKeys t → lookup u (order t) ≡ lookup u t

-- The ranks that the loop over the codes records: 1, 2, … for the countries that are known.
abbrev pub add_rank : Option Uuid → ℕ → Dict Uuid ℤ → Dict Uuid ℤ
add_rank none idx ranks = ranks
add_rank (some c) idx ranks = insert c (pos (suc idx)) ranks

abbrev pub ranking : Dict String Uuid → ℕ → List String → Dict Uuid ℤ → Dict Uuid ℤ
ranking ids idx [] ranks = ranks
ranking ids idx (code ∷ rest) ranks =
    ranking ids (suc idx) rest (add_rank (lookup code ids) idx ranks)

zero-add : (x : ℤ) → pos 0 +ℤ x ≡ x
zero-add x = omega int_laws

module _ (contest user : Uuid) where
  Owed : ℤ → Db → Type 0
  Owed x db = score_of Stage.group_stage contest user db ≡ x

  total-head :
      (u : Uuid) (points x : ℤ) (rest : Dict Uuid ℤ)
      → lookup u rest ≡ none
      → (if u == user then x +ℤ points else x) +ℤ total_for user rest
        ≡ x +ℤ total_for user ((u, points) ∷ rest)
  total-head u points x rest h = ground (arith, h, +ℤ_zero (x +ℤ points))

  pay_totals-Yields :
      (t : Dict Uuid ℤ) (x : ℤ)
      → NodupKeys t
      → Yields (Owed x) (pay_totals contest t) (λ _. Owed (x +ℤ total_for user t))
  unfolding pay_totals Owed
  pay_totals-Yields [] x h =
      weaken-Yields (λ db p. p ∙ sym (+ℤ_zero x)) (λ _ db p. p) (pure-Yields tt)
  pay_totals-Yields ((u, points) ∷ rest) x h =
      then-Yields
        (λ db. score_of Stage.group_stage contest user db ≡ (if u == user then x +ℤ points else x))
        (award-Yields Stage.group_stage contest user points _ u x)
        (weaken-Yields (λ db p. p) (λ _ db p. p ∙ total-head u points x rest h.0)
          (pay_totals-Yields rest (if u == user then x +ℤ points else x) h.1))

  -- What the run has before it pays: the user's score, the picks of the group and the country map.
  module _ (letter : String) (x : ℤ) (ps : List GroupPickRow) (ids : Dict String Uuid) where
    Start : Db → Type 0
    Start db =
        (score_of Stage.group_stage contest user db ≡ x)
        × (group_picks_of contest letter db ≡ ps)
        × (country_map db ≡ ids)

    rank_countries-Yields :
        (codes : List String) (idx : ℕ) (ranks : Dict Uuid ℤ)
        → Yields Start
            (rank_countries contest ids idx codes ranks)
            (λ r db. Start db × (r ≡ ranking ids idx codes ranks))
    unfolding rank_countries set_rank Start group_picks_of country_map
    rank_countries-Yields [] idx ranks =
        weaken-Yields (λ db p. (p, refl)) (λ _ db p. p) (pure-Yields ranks)
    rank_countries-Yields (code ∷ rest) idx ranks =
        bind-Yields (λ c db. Start db × (lookup code ids ≡ some c))
          (or_fail-Yields Start (lookup code ids) _)
          λ c. fact-Yields λ found.
            then-Yields Start (on_error-Yields _ (write-Yields _ (λ db p. p)))
              (rw found (rank_countries-Yields rest (suc idx) (insert c (pos (suc idx)) ranks)))

    module _ (order : Dict Uuid ℤ → Dict Uuid ℤ) (h : IsMapOrder order) (codes : List String) where
      owed : ℤ
      owed = to_int32 (worth_of (ranking ids 0 codes []) user ps)

      totals : Dict Uuid ℤ
      totals = score_picks (ranking ids 0 codes []) ps []

      total_for-order : total_for user (order totals) ≡ owed
      unfolding totals owed to_int32
      total_for-order =
          ap total_of (h.same totals user (score_picks-NodupKeys _ ps [] tt))
          ∙ total_for-score_picks (ranking ids 0 codes []) user ps [] (pos 0) refl
          ∙ ap to_int32 (zero-add (worth_of (ranking ids 0 codes []) user ps))

      pay-Yields :
          Yields Start
            (pay_totals contest (order totals) >> pure commit)
            (AtEnd Start (Owed (x +ℤ owed)))
      unfolding Start totals Owed
      pay-Yields =
          then-Yields (Owed (x +ℤ owed))
            (weaken-Yields (λ db p. p.0) (λ _ db p. p ∙ ap (◌+ℤ◌ x) total_for-order)
              (pay_totals-Yields (order totals) x
                (h.distinct totals (score_picks-NodupKeys _ ps [] tt))))
            (pure-Yields commit)

      finalize_statements-Yields :
          Yields Start
            (finalize_statements order contest letter codes)
            (AtEnd Start (Owed (x +ℤ owed)))
      unfolding finalize_statements get_country_code_to_id_map Start totals
      finalize_statements-Yields =
          bind-Yields (λ _. Start) (on_error-Yields _ (query-Yields _ (λ db p. p)))
            λ n. then-Yields Start (guarded _ _) (
              bind-Yields (λ _. Start) (on_error-Yields _ (query-Yields _ (λ db p. p)))
                λ k. then-Yields Start (guarded _ _) (
                  bind-Yields (λ m db. Start db × (m ≡ ids))
                    (on_error-Yields _ (query-Yields country_map (λ db p. (p, p.2))))
                    λ m. fact-Yields λ em. rw em (
                      bind-Yields (λ r db. Start db × (r ≡ ranking ids 0 codes []))
                        (rank_countries-Yields codes 0 [])
                        λ r. fact-Yields λ er.
                          bind-Yields (λ picks db. Start db × (picks ≡ ps))
                            (on_error-Yields _
                              (query-Yields (group_picks_of contest letter) (λ db p. (p, p.1))))
                            λ picks. fact-Yields λ ep. rw (er, ep) pay-Yields)))
        where
          guarded : (b : Bool) (e : Error) → Yields Start (fail_if b e) (λ _. Start)
          guarded b e = weaken-Yields (λ db p. p) (λ _ db p. p.0) (fail_if-Yields Start b e)

-- When the rankings of a group have been finalized, every user's group score has grown by the int32
-- value of the sum, over the user's picks of that group, of the points of the country's new rank
-- times the factor of the place that the user gave it; a pick of a country that was not ranked is
-- worth nothing. The order in which the map of totals is run through does not matter.
pub finalize_pays :
    (order : Dict Uuid ℤ → Dict Uuid ℤ)
    → IsMapOrder order
    → (contest user : Uuid) (letter : String) (codes : List String) (w : World) {w' : World}
    → finalize_group_rankings order contest letter codes w ≡ (ok tt, w')
    → score_of Stage.group_stage contest user w'.db
      ≡ score_of Stage.group_stage contest user w.db
        +ℤ to_int32 (
            worth_of
              (ranking (country_map w.db) 0 codes [])
              user
              (group_picks_of contest letter w.db))
unfolding finalize_group_rankings Start Owed owed
finalize_pays order h contest user letter codes w e =
    Yields_ok
      (in_tx-Yields _ _ (finalize_statements-Yields contest user letter _ _ _ order h codes)) w
      (refl, refl, refl) e
