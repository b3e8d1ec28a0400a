-- ===== src/Sql/Table.antt =====
-- SQL's statements on a list of rows.
use wcwcpp_backend.Base.{Bool, List, [], ◌∷◌, ◌++◌, if◌then◌else◌, Option, none, some, select, not}
use wcwcpp_backend.Sql.Monad.{Result, ok, err, Error}

module _ {A : Type 0} where
  -- UPDATE … SET … WHERE
  abbrev pub update_where : (A → Bool) → (A → A) → List A → List A
  update_where p f [] = []
  update_where p f (x ∷ xs) = (if p x then f x else x) ∷ update_where p f xs

  -- DELETE … WHERE
  abbrev pub delete_where : (A → Bool) → List A → List A
  delete_where p = select (λ x. not (p x))

  -- INSERT … ON CONFLICT (key) DO UPDATE, where `same` tells a row with the new row's key.
  abbrev pub upsert : (A → Bool) → (A → A) → A → List A → List A
  upsert same f new [] = new ∷ []
  upsert same f new (x ∷ xs) =
      let rest = upsert same f new xs in if same x then f x ∷ xs else x ∷ rest

  -- INSERT … VALUES (…), (…): each row is held to the constraints beside those before it.
  abbrev pub insert_rows : (A → List A → Option Error) → List A → List A → Result (List A)
  insert_rows check [] t = ok t
  insert_rows check (r ∷ rs) t =
      let rest = insert_rows check rs (t ++ r ∷ []) in
      elim (check r t) [ none ↦ rest | some e ↦ err e ]
