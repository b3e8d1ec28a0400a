-- ===== src/Sql/Order.antt =====
-- ORDER BY, LIMIT and OFFSET. Rows that are equal in the order come in table order.
use mathlib.Core.List.{Perm}
use mathlib.Core.List.Perm
use wcwcpp_backend.Base.{
  ℕ, zero, suc, ◌≤◌, ◌≡◌, arith, Bool, true, false, Bool-cases, inl, inr, List, [], ◌∷◌, All,
  length, if◌then◌else◌, if_elim, Option, none, some,
}
use wcwcpp_backend.Base.Int.{ℤ, pos, negsuc}
use wcwcpp_backend.Sql.Monad.{Result, ok, err, Error}

module _ {A : Type 0} where
  -- A new row stands before those that it may stand before.
  abbrev pub insert_by : (A → A → Bool) → A → List A → List A
  insert_by before x [] = x ∷ []
  insert_by before x (y ∷ ys) =
      let rest = insert_by before x ys in if before x y then x ∷ y ∷ ys else y ∷ rest

  unfoldable pub order_by : (A → A → Bool) → List A → List A
  order_by before [] = []
  order_by before (x ∷ xs) = insert_by before x (order_by before xs)

  abbrev pub drop : ℕ → List A → List A
  drop zero xs = xs
  drop (suc n) [] = []
  drop (suc n) (x ∷ xs) = drop n xs

  abbrev pub take : ℕ → List A → List A
  take zero xs = []
  take (suc n) [] = []
  take (suc n) (x ∷ xs) = x ∷ take n xs

  -- LIMIT: the query builder leaves a negative one out.
  abbrev pub limited : ℤ → List A → List A
  limited (pos n) xs = take n xs
  limited (negsuc n) xs = xs

  abbrev pub skipped : ℤ → List A → List A
  skipped (pos n) xs = drop n xs
  skipped (negsuc n) xs = xs

  -- LIMIT and OFFSET. What becomes of a negative offset is not the program's: it is left out, or it
  -- is refused with an error.
  unfoldable pub page : Option Error → ℤ → ℤ → List A → Result (List A)
  page bad_offset limit (pos k) xs = ok (limited limit (skipped (pos k) xs))
  page none limit (negsuc k) xs = ok (limited limit (skipped (negsuc k) xs))
  page (some e) limit (negsuc k) xs = err e

  -- Each row may stand before all later ones.
  abbrev pub IsOrdered : (A → A → Bool) → List A → Type 0
  IsOrdered before [] = Unit
  IsOrdered before (x ∷ xs) = All (λ y. before x y ≡ true) xs × IsOrdered before xs

  -- What ORDER BY needs of a comparison.
  pub record IsOrder (before : A → A → Bool) : Type 0 where
    pub total : (x y : A) → before x y ≡ false → before y x ≡ true
    pub trans : (x y z : A) → before x y ≡ true → before y z ≡ true → before x z ≡ true

  All-insert :
      (P : A → Type 0) (before : A → A → Bool) (x : A) (xs : List A)
      → P x
      → All P xs
      → All P (insert_by before x xs)
  All-insert P before x [] p h = (p, tt)
  All-insert P before x (y ∷ ys) p h =
      if_elim (All P) (before x y) _ _ (p, h) (h.0, All-insert P before x ys p h.1)

  All-trans :
      (before : A → A → Bool)
      → IsOrder before
      → (x y : A) (ys : List A) → before x y ≡ true
      → All (λ z. before y z ≡ true) ys
      → All (λ z. before x z ≡ true) ys
  All-trans before o x y [] e h = tt
  All-trans before o x y (z ∷ zs) e h = (o.trans x y z e h.0, All-trans before o x y zs e h.1)

  insert_by-IsOrdered :
      (before : A → A → Bool)
      → IsOrder before
      → (x : A) (xs : List A) → IsOrdered before xs
      → IsOrdered before (insert_by before x xs)
  insert_by-IsOrdered before o x [] h = (tt, tt)
  insert_by-IsOrdered before o x (y ∷ ys) h = elim (Bool-cases (before x y)) [
    | inl t ↦ rw t ((t, All-trans before o x y ys t h.0), h)
    | inr f ↦ rw f (
      All-insert (λ z. before y z ≡ true) before x ys (o.total x y f) h.0,
      insert_by-IsOrdered before o x ys h.1,
    )
  ]

  pub order_by-IsOrdered :
      (before : A → A → Bool)
      → IsOrder before
      → (xs : List A) → IsOrdered before (order_by before xs)
  unfolding order_by
  order_by-IsOrdered before o [] = tt
  order_by-IsOrdered before o (x ∷ xs) =
      insert_by-IsOrdered before o x (order_by before xs) (order_by-IsOrdered before o xs)

  insert_by-perm :
      (before : A → A → Bool) (x : A) (xs : List A) → Perm (insert_by before x xs) (x ∷ xs)
  insert_by-perm before x [] = Perm.rfl
  insert_by-perm before x (y ∷ ys) =
      if_elim (λ l. Perm l (x ∷ y ∷ ys)) (before x y) _ _ Perm.rfl
        (Perm.trans (Perm.cons y (insert_by-perm before x ys)) (Perm.swap x y ys))

  pub order_by-perm : (before : A → A → Bool) (xs : List A) → Perm (order_by before xs) xs
  unfolding order_by
  order_by-perm before [] = Perm.rfl
  order_by-perm before (x ∷ xs) =
      Perm.trans (insert_by-perm before x (order_by before xs))
        (Perm.cons x (order_by-perm before xs))

  pub IsOrdered-drop :
      (before : A → A → Bool) (n : ℕ) (xs : List A)
      → IsOrdered before xs
      → IsOrdered before (drop n xs)
  IsOrdered-drop before zero xs h = h
  IsOrdered-drop before (suc n) [] h = tt
  IsOrdered-drop before (suc n) (x ∷ xs) h = IsOrdered-drop before n xs h.1

  All-take : (P : A → Type 0) (n : ℕ) (xs : List A) → All P xs → All P (take n xs)
  All-take P zero xs h = tt
  All-take P (suc n) [] h = tt
  All-take P (suc n) (x ∷ xs) h = (h.0, All-take P n xs h.1)

  pub IsOrdered-take :
      (before : A → A → Bool) (n : ℕ) (xs : List A)
      → IsOrdered before xs
      → IsOrdered before (take n xs)
  IsOrdered-take before zero xs h = tt
  IsOrdered-take before (suc n) [] h = tt
  IsOrdered-take before (suc n) (x ∷ xs) h = (All-take _ n xs h.0, IsOrdered-take before n xs h.1)

  pub length-take : (n : ℕ) (xs : List A) → length (take n xs) ≤ n
  length-take zero xs = omega arith
  length-take (suc n) [] = omega arith
  length-take (suc n) (x ∷ xs) = omega (arith, length-take n xs)
