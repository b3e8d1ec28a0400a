-- ===== src/Storage/ThirdPlace/Once.antt =====
-- The third-place qualifier of a group is finalized once, and after the rankings.
use mathlib.Core.List.{Perm, Memᴰ, mem-singleton}
use native.Mathlib.Nat.{ℕ_set}
use mathlib.Core.List.Perm
use wcwcpp_backend.Base.{
  String, ◌≡◌, refl, sym, ap, ◌∙◌, Bool, List, [], ◌∷◌, arith, nat_eq, string_eq,
}
use wcwcpp_backend.Base.Int.{int_eq}
use wcwcpp_backend.Entity.{Uuid}
use wcwcpp_backend.Rows.{Db}
use wcwcpp_backend.Sql.{World, ok, err, Error}
use wcwcpp_backend.Sql.Post.{in_tx-Yields, Yields_ok}
use wcwcpp_backend.Storage.ThirdPlace.{third_place, qualifier_of, finalize_third_place_qualifier}
use wcwcpp_backend.Storage.ThirdPlace.Decided.{
  IsRowOrder, Decided, qualifier_statements-Decided, Decided-stops, unranked-stops, refuses,
}

after_success :
    (row_order : List Uuid → List Uuid) (pick_order : List (Uuid × Bool) → List (Uuid × Bool))
    (contest : Uuid) (letter : String) (qualifies : Bool) (w w1 : World)
    → finalize_third_place_qualifier row_order pick_order contest letter qualifies w ≡ (ok tt, w1)
    → Decided row_order contest letter w1.db
unfolding finalize_third_place_qualifier
after_success row_order pick_order contest letter qualifies w w1 e =
    Yields_ok
      (in_tx-Yields _ _
        (qualifier_statements-Decided row_order pick_order contest letter qualifies w.db))
      w refl e

-- One row comes in one order.
only-row :
    (row_order : List Uuid → List Uuid) (c : Uuid)
    → IsRowOrder row_order
    → row_order (c ∷ []) ≡ c ∷ []
only-row row_order c o = go (row_order (c ∷ [])) (o.permutes (c ∷ []))
  where
    go : (xs : List Uuid) → Perm xs (c ∷ []) → xs ≡ c ∷ []
    go [] p = Perm.nil-eq p
    go (x ∷ []) p = ap (λ y. y ∷ []) ((mem-singleton ℕ_set).0 (Perm.subset p x ∣ Memᴰ.head refl ∣₁))
    go (x ∷ y ∷ xs) p = absurd (ground (arith, Perm.length-eq p))

Decided-later :
    (row_order again_order : List Uuid → List Uuid) (contest c : Uuid) (letter : String)
    (before after : Db)
    → IsRowOrder row_order
    → IsRowOrder again_order
    → third_place contest letter before ≡ c ∷ []
    → third_place contest letter after ≡ c ∷ []
    → qualifier_of contest c after ≡ qualifier_of contest c before
    → Decided row_order contest letter before
    → Decided again_order contest letter after
Decided-later row_order again_order contest c letter before after o o' third still column
      (c', rest, found, set) =
    let same : c' ≡ c = ground (arith, found, only-row row_order c o, ap row_order third) in
    (c, [], ap again_order still ∙ only-row again_order c o', rw (column, sym same) set)

-- After the third-place qualifier of a group has been finalized with one country c of rank 3, it is
-- not finalized again while c is still the group's only country of rank 3 and its qualifier column
-- is as the first run left it: another run, with either answer, whatever else has changed and
-- whatever the server does, reports an error and changes nothing.
pub finalize_third_once :
    (row_order again_order : List Uuid → List Uuid)
    (pick_order again_pick_order : List (Uuid × Bool) → List (Uuid × Bool)) (contest c : Uuid)
    (letter : String) (first again : Bool) (w w1 v : World)
    → IsRowOrder row_order
    → IsRowOrder again_order
    → finalize_third_place_qualifier row_order pick_order contest letter first w ≡ (ok tt, w1)
    → third_place contest letter w1.db ≡ c ∷ []
    → third_place contest letter v.db ≡ c ∷ []
    → qualifier_of contest c v.db ≡ qualifier_of contest c w1.db
    → (e : Error) × ((finalize_third_place_qualifier again_order again_pick_order contest letter
          again v).0
        ≡ err e)
      × ((finalize_third_place_qualifier again_order again_pick_order contest letter again v).1.db
          ≡ v.db)
finalize_third_once row_order again_order pick_order again_pick_order contest c letter first again w
      w1 v o o' done third still column =
    refuses again_order again_pick_order contest letter again v (
      Decided-stops again_order again_pick_order contest letter again v.db (
        Decided-later row_order again_order contest c letter w1.db v.db o o' third still column
          (after_success row_order pick_order contest letter first w w1 done)))

-- The third-place qualifier of a group where no country has rank 3 cannot be finalized: the run
-- reports an error and changes nothing.
pub finalize_third_unranked :
    (row_order : List Uuid → List Uuid) (pick_order : List (Uuid × Bool) → List (Uuid × Bool))
    (contest : Uuid) (letter : String) (qualifies : Bool) (w : World)
    → IsRowOrder row_order
    → third_place contest letter w.db ≡ []
    → (e : Error) × ((finalize_third_place_qualifier row_order pick_order contest letter qualifies
          w).0
        ≡ err e)
      × ((finalize_third_place_qualifier row_order pick_order contest letter qualifies w).1.db
          ≡ w.db)
finalize_third_unranked row_order pick_order contest letter qualifies w o e =
    refuses row_order pick_order contest letter qualifies w
      (unranked-stops row_order pick_order contest letter qualifies w.db o e)
