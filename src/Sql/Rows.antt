-- ===== src/Sql/Rows.antt =====
-- Rows that a selection or a deletion leaves.
use wcwcpp_backend.Base.{
  ◌≡◌, refl, Bool, true, false, List, [], ◌∷◌, ◌++◌, any, select, All, if◌then◌else◌, arith,
}
use wcwcpp_backend.Sql.Table.{delete_where}

module _ {A : Type 0} where
  All_if :
      (P : A → Type 0) (b : Bool) (x : A) (xs : List A)
      → (b ≡ true → P x)
      → All P xs
      → All P (if b then x ∷ xs else xs)
  All_if P true x xs h all = (h refl, all)
  All_if P false x xs h all = all

  pub All-select :
      {P Q : A → Type 0} (q : A → Bool) (xs : List A)
      → ((x : A) → q x ≡ true → P x → Q x)
      → All P xs
      → All Q (select q xs)
  All-select q [] h all = tt
  All-select {P} {Q} q (x ∷ xs) h all =
      All_if _ (q x) x (select q xs) (λ e. h x e all.0) (All-select q xs h all.1)

  -- Every row passes.
  pub All-passing :
      {P : A → Type 0} (q : A → Bool) (xs : List A)
      → ((x : A) → q x ≡ true → P x)
      → All P (select q xs)
  All-passing q [] h = tt
  All-passing q (x ∷ xs) h = All_if _ (q x) x (select q xs) (h x) (All-passing q xs h)

  pub any-select :
      (p q : A → Bool) (xs : List A)
      → ((x : A) → p x ≡ true → q x ≡ true)
      → any p xs ≡ true
      → any p (select q xs) ≡ true
  any-select p q [] h e = e
  any-select p q (x ∷ xs) h e = (let ih = any-select p q xs h in let k = h x in ground arith)

  -- A row that is there and not among the deleted is among the rest.
  pub any-rest :
      (p q : A → Bool) (xs : List A)
      → any p xs ≡ true
      → any p (select q xs) ≡ false
      → any p (delete_where q xs) ≡ true
  any-rest p q [] e n = e
  any-rest p q (x ∷ xs) e n = (let ih = any-rest p q xs in ground arith)

  pub select-rest :
      (p q : A → Bool) (xs : List A)
      → ((x : A) → p x ≡ true → q x ≡ false)
      → select p (delete_where q xs) ≡ select p xs
  select-rest p q [] h = refl
  select-rest p q (x ∷ xs) h = (let ih = select-rest p q xs h in let k = h x in ground arith)

  pub select-new :
      (p : A → Bool) (xs : List A) (x : A)
      → any p xs ≡ false
      → p x ≡ true
      → select p (xs ++ x ∷ []) ≡ x ∷ []
  select-new p [] x n y = rw y refl
  select-new p (z ∷ zs) x n y = (let ih = select-new p zs x in ground arith)
