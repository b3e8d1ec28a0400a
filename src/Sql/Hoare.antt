-- ===== src/Sql/Hoare.antt =====
-- Invariants of the database under runs of statements, whatever the server refuses: a triple for
-- each way to build an action.
use wcwcpp_backend.Base.{◌≡◌, refl, none, some, List, [], ◌∷◌, All, Bool, if◌then◌else◌, if_elim}
use wcwcpp_backend.Rows.{Db}
use wcwcpp_backend.Sql.Monad.{
  Error, Result, ok, err, World, Action, Done, ◌>>=◌, ◌>>◌, exec, query, query_one, write, in_tx,
  run_tx, close_tx, TxEnd, commit, no_commit, on_error, answer, driver, pop_fault, first_row,
  with_db, fail, pure,
}

-- An invariant `P` of the database that an action keeps, and what its result satisfies.
abbrev pub Holds : {A : Type 0} → (Db → Type 0) → (A → Type 0) → Result A × World → Type 0
Holds P Q (ok a, w) = P w.db × Q a
Holds P Q (err e, w) = P w.db

pub record Ensures {A : Type 0} (P : Db → Type 0) (m : Action A) (Q : A → Type 0) : Type 0 where
  pub run : (w : World) → P w.db → Holds P Q (m w)

-- No fact about the result.
abbrev pub Any : {A : Type 0} → A → Type 0
Any a = Unit

-- The same of a statement that is run on the tables.
abbrev pub After : {A : Type 0} → (Db → Type 0) → (A → Type 0) → Result (A × Db) → Type 0
After P Q (ok (a, db)) = P db × Q a
After P Q (err e) = Unit

-- What holds of the row that a query into one struct takes.
abbrev pub First : {A : Type 0} → (A → Type 0) → List A → Type 0
First Q [] = Unit
First Q (a ∷ rows) = Q a

pub All-First : {A : Type 0} (Q : A → Type 0) (rows : List A) → All Q rows → First Q rows
All-First Q [] h = tt
All-First Q (a ∷ rows) h = h.0

module _ (P : Db → Type 0) where
  pub pure-Ensures : {A : Type 0} (Q : A → Type 0) (a : A) → Q a → Ensures P (pure a) Q
  unfolding pure
  pure-Ensures Q a q = record { run = λ w p. (p, q) }

  pub fail-Ensures : {A : Type 0} (Q : A → Type 0) (e : Error) → Ensures P (fail e) Q
  unfolding fail
  fail-Ensures Q e = record { run = λ w p. p }

  pub bind-Ensures :
      {A B : Type 0} (Q : A → Type 0) {R : B → Type 0} {m : Action A} {f : A → Action B}
      → Ensures P m Q
      → ((a : A) → Q a → Ensures P (f a) R)
      → Ensures P (m >>= f) R
  unfolding ◌>>=◌
  bind-Ensures {A} {B} Q {R} {m} {f} hm hf = record { run = λ w p. go (m w) (hm.run w p) }
    where
      go :
          (r : Result A × World)
          → Holds P Q r
          → Holds P R
              (elim r.0 as (λ _. Result B × World) [ ok a ↦ f a r.1 | err e ↦ (err e, r.1) ])
      go (ok a, v) h = (hf a h.1).run v h.0
      go (err e, v) h = h

  pub then-Ensures :
      {A B : Type 0} {R : B → Type 0} {m : Action A} {k : Action B}
      → Ensures P m Any
      → Ensures P k R
      → Ensures P (m >> k) R
  unfolding ◌>>◌
  then-Ensures hm hk = bind-Ensures Any hm (λ _ _. hk)

  pub exec-Ensures :
      {A : Type 0} (Q : A → Type 0) (f : Db → Result (A × Db))
      → ((db : Db) → P db → After P Q (f db))
      → Ensures P (exec f) Q
  unfolding exec
  exec-Ensures {A} Q f h = record {
    run = λ w p.
        elim (pop_fault w.faults).0
          as (λ bad.
            let next : World = record { db = w.db; faults = (pop_fault w.faults).1 } in
            Holds P Q (elim bad as (λ _. Result A × World) [
              | some text ↦ (err (driver text), next)
              | none ↦ answer next (f w.db)
            ])) [ some text ↦ p | none ↦ go w p (f w.db) (h w.db p) ];
  }
    where
      go :
          (w : World)
          → P w.db
          → (r : Result (A × Db)) → After P Q r
          → Holds P Q (answer (record { db = w.db; faults = (pop_fault w.faults).1 }) r)
      go w p (ok (a, db')) k = k
      go w p (err x) k = p

  pub query-Ensures :
      {A : Type 0} (Q : A → Type 0) (f : Db → A)
      → ((db : Db) → P db → Q (f db))
      → Ensures P (query f) Q
  unfolding query
  query-Ensures Q f h = exec-Ensures Q (λ db. ok (f db, db)) (λ db p. (p, h db p))

  pub query_one-Ensures :
      {A : Type 0} (Q : A → Type 0) (f : Db → List A)
      → ((db : Db) → P db → First Q (f db))
      → Ensures P (query_one f) Q
  unfolding query_one
  query_one-Ensures {A} Q f h =
      exec-Ensures Q (λ db. with_db db (first_row (f db))) (λ db p. go db p (f db) (h db p))
    where
      go :
          (db : Db)
          → P db
          → (rows : List A) → First Q rows
          → After P Q (with_db db (first_row rows))
      go db p [] k = tt
      go db p (a ∷ rows) k = (p, k)

  pub write-Ensures : (f : Db → Db) → ((db : Db) → P db → P (f db)) → Ensures P (write f) Any
  unfolding write
  write-Ensures f h = exec-Ensures Any (λ db. ok (tt, f db)) (λ db p. (h db p, tt))

  pub on_error-Ensures :
      {A : Type 0} {Q : A → Type 0} (g : Error → Error) {m : Action A}
      → Ensures P m Q
      → Ensures P (on_error g m) Q
  unfolding on_error
  on_error-Ensures {A} {Q} g {m} h = record { run = λ w p. go (m w) (h.run w p) }
    where
      go :
          (r : Result A × World)
          → Holds P Q r
          → Holds P Q (elim r.0 as (λ _. Result A × World) [
            | ok a ↦ (ok a, r.1)
            | err e ↦ (err (g e), r.1)
          ])
      go (ok a, v) k = k
      go (err e, v) k = k

  run_tx-Ensures :
      (c : Error → Error) {body : Action TxEnd} → Ensures P body Any → Ensures P (run_tx c body) Any
  run_tx-Ensures c {body} h = record { run = λ w p. close w p (body w) (h.run w p) }
    where
      close :
          (w : World)
          → P w.db
          → (r : Result TxEnd × World) → Holds P Any r
          → Holds P Any (close_tx c w r)
      close w p (ok no_commit, w') k = (p, tt)
      close w p (ok commit, w') k =
          elim (pop_fault w'.faults).0
            as (λ bad.
              let rest = (pop_fault w'.faults).1 in
              Holds P Any (elim bad as (λ _. Result Done × World) [
                | some text ↦ (err (c (driver text)), record { db = w.db; faults = rest })
                | none ↦ (ok tt, record { db = w'.db; faults = rest })
              ])) [ some text ↦ p | none ↦ (k.0, tt) ]
      close w p (err e, w') k = p

  pub in_tx-Ensures :
      (b c : Error → Error) {body : Action TxEnd}
      → Ensures P body Any
      → Ensures P (in_tx b c body) Any
  unfolding in_tx
  in_tx-Ensures b c h =
      then-Ensures (on_error-Ensures b (query-Ensures Any (λ _. tt) (λ _ _. tt)))
        (run_tx-Ensures c h)

  pub if-Ensures :
      {A : Type 0} {Q : A → Type 0} (b : Bool) {m k : Action A}
      → Ensures P m Q
      → Ensures P k Q
      → Ensures P (if b then m else k) Q
  if-Ensures {Q} b hm hk = if_elim (λ a. Ensures P a Q) b _ _ hm hk

-- What is left of a triple when the result is not looked at.
pub Ensures_db :
    {A : Type 0} {P : Db → Type 0} {m : Action A} {Q : A → Type 0}
    → Ensures P m Q
    → (w : World) → P w.db
    → P (m w).1.db
Ensures_db {A} {P} {m} {Q} h w p = go (m w) (h.run w p)
  where
    go : (r : Result A × World) → Holds P Q r → P r.1.db
    go (ok a, v) k = k.0
    go (err e, v) k = k

-- An action whose result cannot be reports an error.
pub Ensures_never :
    {A : Type 0} {P : Db → Type 0} (m : Action A)
    → Ensures P m (λ _. ⊥)
    → (w : World) → P w.db
    → (e : Error) × ((m w).0 ≡ err e) × P (m w).1.db
Ensures_never {A} {P} m h w p = go (m w) (h.run w p)
  where
    go : (r : Result A × World) → Holds P (λ _. ⊥) r → (e : Error) × (r.0 ≡ err e) × P r.1.db
    go (ok a, v) k = absurd k.1
    go (err e, v) k = (e, refl, k)
