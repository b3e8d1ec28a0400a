-- ===== src/Storage/ThirdPlace/Decided.antt =====
-- When FinalizeThirdPlaceQualifier stops at a guard, and what it leaves for the next run.
use mathlib.Core.List.{Perm}
use mathlib.Core.List.Perm
use mathlib.Core.Path.{subst}
use wcwcpp_backend.Base.{
  String, ◌≡◌, refl, ap, ◌∙◌, Bool, true, Option, some, List, [], ◌∷◌, All, map, arith, select,
  nat_eq, string_eq, ◌&&◌,
}
use wcwcpp_backend.Base.Int.{pos, int_eq}
use wcwcpp_backend.Entity.{Uuid}
use wcwcpp_backend.Rows.{Db, GroupStandingRow}
use wcwcpp_backend.Sql.{World, err, Error, commit, update_where}
use wcwcpp_backend.Sql.Laws.{in_tx-FailsClean, FailsClean_lem}
use wcwcpp_backend.Sql.Post.{
  Yields, AtEnd, bind-Yields, then-Yields, on_error-Yields, query-Yields, query_one-Yields,
  write-Yields, fail_if-Yields, pure-Yields, in_tx-Yields, weaken-Yields, fact-Yields, stopped,
  Yields_never,
}
use wcwcpp_backend.Storage.Award.Elsewhere.{award_all-elsewhere}
use wcwcpp_backend.Storage.Existing.{is_some, is_int}
use wcwcpp_backend.Storage.Standings.{group_key}
use wcwcpp_backend.Storage.FinalizeGroup.{in_group}
use wcwcpp_backend.Storage.ThirdPlace.{
  third_place, qualifier_of, set_qualifier, qualifier_statements, finalize_third_place_qualifier,
}

module _ (contest c : Uuid) (letter : String) (qualifies : Bool) where
  abbrev mark : GroupStandingRow → GroupStandingRow
  mark s = record s { is_third_place_qualifier = some qualifies }

  third_place-mark :
      (rows : List GroupStandingRow)
      → map
          (λ s. s.country_id)
          (select
            (λ s. in_group contest letter s && is_int s.rank (pos 3))
            (update_where (group_key contest c) mark rows))
        ≡ map
            (λ s. s.country_id)
            (select (λ s. in_group contest letter s && is_int s.rank (pos 3)) rows)
  third_place-mark [] = refl
  third_place-mark (s ∷ rows) = ground (arith, third_place-mark rows)

  qualifier_of-mark :
      (rows : List GroupStandingRow)
      → All
          (λ q. q ≡ some qualifies)
          (map
            (λ s. s.is_third_place_qualifier)
            (select (group_key contest c) (update_where (group_key contest c) mark rows)))
  qualifier_of-mark [] = tt
  qualifier_of-mark (s ∷ rows) = ground (arith, qualifier_of-mark rows)

-- What a query without ORDER BY gives: the same rows in some order.
pub record IsRowOrder (row_order : List Uuid → List Uuid) : Type 0 where
  pub permutes : (xs : List Uuid) → Perm (row_order xs) xs

-- A country of rank 3 is found, and its qualifier column is set.
abbrev pub Decided : (List Uuid → List Uuid) → Uuid → String → Db → Type 0
Decided row_order contest letter db =
    (c : Uuid) × (rest : List Uuid) × (row_order (third_place contest letter db) ≡ c ∷ rest)
    × All (λ q. is_some q ≡ true) (qualifier_of contest c db)

All-is_some :
    (qualifies : Bool) (qs : List (Option Bool))
    → All (λ q. q ≡ some qualifies) qs
    → All (λ q. is_some q ≡ true) qs
All-is_some qualifies [] h = tt
All-is_some qualifies (q ∷ qs) h = (ground (arith, h.0), All-is_some qualifies qs h.1)

set_qualifier-Decided :
    (row_order : List Uuid → List Uuid) (contest c : Uuid) (letter : String) (qualifies : Bool)
    (rest : List Uuid) (db : Db)
    → row_order (third_place contest letter db) ≡ c ∷ rest
    → Decided row_order contest letter (set_qualifier contest c qualifies db)
unfolding third_place qualifier_of set_qualifier
set_qualifier-Decided row_order contest c letter qualifies rest db e = (
  c,
  rest,
  ap row_order (third_place-mark contest c letter qualifies db.group_standings) ∙ e,
  All-is_some qualifies _ (qualifier_of-mark contest c letter qualifies db.group_standings),
)

module _ (row_order : List Uuid → List Uuid) (pick_order : List (Uuid × Bool) → List (Uuid × Bool))
    (contest : Uuid) (letter : String) (qualifies : Bool) where
  pub qualifier_statements-Decided :
      (d : Db)
      → Yields
          (λ db. db ≡ d)
          (qualifier_statements row_order pick_order contest letter qualifies)
          (AtEnd (λ db. db ≡ d) (Decided row_order contest letter))
  unfolding qualifier_statements third_place qualifier_of
  qualifier_statements-Decided d =
      bind-Yields
        (λ c db.
          (db ≡ d) × ((rest : List Uuid) × (row_order (third_place contest letter db) ≡ c ∷ rest)))
        (on_error-Yields _ (query_one-Yields _ (λ db a rest p e. (p, (rest, e)))))
        λ c.
          bind-Yields
            (λ _ db. (rest : List Uuid) × (row_order (third_place contest letter db) ≡ c ∷ rest))
            (on_error-Yields _ (query_one-Yields _ (λ db a rest p e. p.1)))
            λ q.
              then-Yields
                (λ db. (rest : List Uuid) × (row_order (third_place contest letter db) ≡ c ∷ rest))
                (weaken-Yields (λ db p. p) (λ _ db p. p.0) (fail_if-Yields _ _ _))
                (then-Yields (Decided row_order contest letter)
                  (on_error-Yields _ (
                    write-Yields _ (λ db p.
                      set_qualifier-Decided row_order contest c letter qualifies p.0 db p.1)))
                  (bind-Yields (λ _. Decided row_order contest letter)
                    (on_error-Yields _ (query-Yields _ (λ db p. p)))
                    λ picks.
                      then-Yields (Decided row_order contest letter)
                        (award_all-elsewhere (Decided row_order contest letter) (λ db rows p. p) _ _
                          contest _ _)
                        (pure-Yields commit)))

  -- The run stops at the first guard that fails.
  pub Decided-stops :
      (d : Db)
      → Decided row_order contest letter d
      → Yields
          (λ db. db ≡ d)
          (qualifier_statements row_order pick_order contest letter qualifies)
          (AtEnd (λ db. db ≡ d) (λ _. ⊥))
  unfolding qualifier_statements
  Decided-stops d (c, rest, e, h) =
      bind-Yields (λ a db. (db ≡ d) × (a ≡ c))
        (on_error-Yields _ (query_one-Yields _ (λ db a more p f. (p, ground (arith, e, f, p)))))
        λ a. fact-Yields λ same.
          bind-Yields (λ q db. (db ≡ d) × (is_some q ≡ true))
            (on_error-Yields _
              (query_one-Yields _ (λ db q more p f. (p, ground (arith, h, f, p, same)))))
            λ q. fact-Yields λ set. stopped _ _ _ _ _ set

  found-ranked :
      IsRowOrder row_order
      → (d db : Db) (a : Uuid) (more : List Uuid) → third_place contest letter d ≡ []
      → db ≡ d
      → row_order (third_place contest letter db) ≡ a ∷ more
      → ⊥
  found-ranked o d db a more e p f =
      let nothing : row_order (third_place contest letter db) ≡ [] = Perm.eq-nil (
        subst (Perm (row_order (third_place contest letter db)))
          (ap (third_place contest letter) p ∙ e) (o.permutes (third_place contest letter db))) in
      absurd (ground (arith, nothing, e, p, f))

  pub unranked-stops :
      (d : Db)
      → IsRowOrder row_order
      → third_place contest letter d ≡ []
      → Yields
          (λ db. db ≡ d)
          (qualifier_statements row_order pick_order contest letter qualifies)
          (AtEnd (λ db. db ≡ d) (λ _. ⊥))
  unfolding qualifier_statements
  unranked-stops d o e =
      bind-Yields (λ a db. ⊥)
        (on_error-Yields _
          (query_one-Yields _ (λ db a more p f. absurd (found-ranked o d db a more e p f))))
        λ a. record { run = λ w p. absurd p }

  pub refuses :
      (w : World)
      → Yields
          (λ db. db ≡ w.db)
          (qualifier_statements row_order pick_order contest letter qualifies)
          (AtEnd (λ db. db ≡ w.db) (λ _. ⊥))
      → (e : Error) × ((finalize_third_place_qualifier row_order pick_order contest letter qualifies
            w).0
          ≡ err e)
        × ((finalize_third_place_qualifier row_order pick_order contest letter qualifies w).1.db
            ≡ w.db)
  unfolding finalize_third_place_qualifier
  refuses w h =
      let m = finalize_third_place_qualifier row_order pick_order contest letter qualifies in
      let (e, failed) = Yields_never m (in_tx-Yields _ _ h) w refl in
      (e, failed, FailsClean_lem m w (in_tx-FailsClean _ _ _) failed)
