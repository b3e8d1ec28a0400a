-- ===== src/Sql/Post.antt =====
-- What a successful run of statements has done: a precondition and a postcondition of the database.
-- A run that the server breaks off is no success.
use wcwcpp_backend.Base.{
  ◌≡◌, refl, Option, none, some, List, [], ◌∷◌, Bool, true, false, if◌then◌else◌, if_elim,
}
use wcwcpp_backend.Rows.{Db}
use wcwcpp_backend.Sql.Monad.{
  Error, Result, ok, err, World, Action, Done, ◌>>=◌, ◌>>◌, exec, query, query_one, write, in_tx,
  run_tx, close_tx, TxEnd, commit, no_commit, on_error, answer, driver, pop_fault, first_row,
  with_db, fail, pure, fail_if, or_fail,
}

abbrev pub OnOk : {A : Type 0} → (A → Db → Type 0) → Result A × World → Type 0
OnOk R (ok a, w) = R a w.db
OnOk R (err e, w) = Unit

pub record Yields {A : Type 0} (P : Db → Type 0) (m : Action A) (R : A → Db → Type 0) : Type 0 where
  pub run : (w : World) → P w.db → OnOk R (m w)

-- The same of a statement that is run on the tables.
abbrev pub Then : {A : Type 0} → (A → Db → Type 0) → Result (A × Db) → Type 0
Then R (ok (a, db)) = R a db
Then R (err e) = Unit

pub pure-Yields : {A : Type 0} {R : A → Db → Type 0} (a : A) → Yields (R a) (pure a) R
unfolding pure
pure-Yields a = record { run = λ w p. p }

pub fail-Yields :
    {A : Type 0} (P : Db → Type 0) (R : A → Db → Type 0) (e : Error) → Yields P (fail e) R
unfolding fail
fail-Yields P R e = record { run = λ w p. tt }

pub bind-Yields :
    {A B : Type 0} {P : Db → Type 0} (Q : A → Db → Type 0) {R : B → Db → Type 0} {m : Action A}
    {f : A → Action B}
    → Yields P m Q
    → ((a : A) → Yields (Q a) (f a) R)
    → Yields P (m >>= f) R
unfolding ◌>>=◌
bind-Yields {A} {B} Q {R} {m} {f} hm hf = record { run = λ w p. go (m w) (hm.run w p) }
  where
    go :
        (r : Result A × World)
        → OnOk Q r
        → OnOk R (elim r.0 as (λ _. Result B × World) [ ok a ↦ f a r.1 | err e ↦ (err e, r.1) ])
    go (ok a, v) h = (hf a).run v h
    go (err e, v) h = tt

pub then-Yields :
    {A B : Type 0} {P : Db → Type 0} (Q : Db → Type 0) {R : B → Db → Type 0} {m : Action A}
    {k : Action B}
    → Yields P m (λ _. Q)
    → Yields Q k R
    → Yields P (m >> k) R
unfolding ◌>>◌
then-Yields Q hm hk = bind-Yields (λ _. Q) hm (λ _. hk)

pub exec-Yields :
    {A : Type 0} {P : Db → Type 0} {R : A → Db → Type 0} (f : Db → Result (A × Db))
    → ((db : Db) → P db → Then R (f db))
    → Yields P (exec f) R
unfolding exec
exec-Yields {A} {P} {R} f h = record {
  run = λ w p.
      elim (pop_fault w.faults).0
        as (λ bad.
          let next : World = record { db = w.db; faults = (pop_fault w.faults).1 } in
          OnOk R (elim bad as (λ _. Result A × World) [
            | some text ↦ (err (driver text), next)
            | none ↦ answer next (f w.db)
          ])) [ some text ↦ tt | none ↦ go w (f w.db) (h w.db p) ];
}
  where
    go :
        (w : World) (r : Result (A × Db))
        → Then R r
        → OnOk R (answer (record { db = w.db; faults = (pop_fault w.faults).1 }) r)
    go w (ok (a, db')) k = k
    go w (err x) k = tt

pub query-Yields :
    {A : Type 0} {P : Db → Type 0} {R : A → Db → Type 0} (f : Db → A)
    → ((db : Db) → P db → R (f db) db)
    → Yields P (query f) R
unfolding query
query-Yields f h = exec-Yields (λ db. ok (f db, db)) h

pub query_one-Yields :
    {A : Type 0} {P : Db → Type 0} {R : A → Db → Type 0} (f : Db → List A)
    → ((db : Db) (a : A) (rest : List A) → P db → f db ≡ a ∷ rest → R a db)
    → Yields P (query_one f) R
unfolding query_one
query_one-Yields {A} {P} {R} f h =
    exec-Yields (λ db. with_db db (first_row (f db))) (λ db p. go db p (f db) refl)
  where
    go : (db : Db) → P db → (rows : List A) → f db ≡ rows → Then R (with_db db (first_row rows))
    go db p [] e = tt
    go db p (a ∷ rest) e = h db a rest p e

pub write-Yields :
    {P : Db → Type 0} {R : Done → Db → Type 0} (f : Db → Db)
    → ((db : Db) → P db → R tt (f db))
    → Yields P (write f) R
unfolding write
write-Yields f h = exec-Yields (λ db. ok (tt, f db)) h

pub on_error-Yields :
    {A : Type 0} {P : Db → Type 0} {R : A → Db → Type 0} (g : Error → Error) {m : Action A}
    → Yields P m R
    → Yields P (on_error g m) R
unfolding on_error
on_error-Yields {A} {P} {R} g {m} h = record { run = λ w p. go (m w) (h.run w p) }
  where
    go :
        (r : Result A × World)
        → OnOk R r
        → OnOk R
            (elim r.0 as (λ _. Result A × World) [ ok a ↦ (ok a, r.1) | err e ↦ (err (g e), r.1) ])
    go (ok a, v) k = k
    go (err e, v) k = tt

pub if-Yields :
    {A : Type 0} {P : Db → Type 0} {R : A → Db → Type 0} (b : Bool) {m k : Action A}
    → Yields P m R
    → Yields P k R
    → Yields P (if b then m else k) R
if-Yields {P} {R} b hm hk = if_elim (λ a. Yields P a R) b _ _ hm hk

-- A weaker precondition is stronger, and a stronger postcondition.
pub weaken-Yields :
    {A : Type 0} {P P' : Db → Type 0} {R R' : A → Db → Type 0} {m : Action A}
    → ((db : Db) → P' db → P db)
    → ((a : A) (db : Db) → R a db → R' a db)
    → Yields P m R
    → Yields P' m R'
weaken-Yields {A} {R} {R'} {m} f g h = record { run = λ w p. go (m w) (h.run w (f w.db p)) }
  where
    go : (r : Result A × World) → OnOk R r → OnOk R' r
    go (ok a, v) k = g a v.db k
    go (err e, v) k = tt

-- A transaction has done what its statements did if it was committed, and nothing otherwise.
abbrev pub AtEnd : (Db → Type 0) → (Db → Type 0) → TxEnd → Db → Type 0
AtEnd P R commit db = R db
AtEnd P R no_commit db = (before : Db) → P before → R before

run_tx-Yields :
    {P R : Db → Type 0} (c : Error → Error) {body : Action TxEnd}
    → Yields P body (AtEnd P R)
    → Yields P (run_tx c body) (λ _. R)
run_tx-Yields {P} {R} c {body} h = record { run = λ w p. close w p (body w) (h.run w p) }
  where
    close :
        (w : World)
        → P w.db
        → (r : Result TxEnd × World) → OnOk (AtEnd P R) r
        → OnOk (λ _. R) (close_tx c w r)
    close w p (ok no_commit, w') k = k w.db p
    close w p (ok commit, w') k =
        elim (pop_fault w'.faults).0
          as (λ bad.
            let rest = (pop_fault w'.faults).1 in
            OnOk (λ _. R)
              (elim bad as (λ _. Result Done × World) [
                | some text ↦ (err (c (driver text)), record { db = w.db; faults = rest })
                | none ↦ (ok tt, record { db = w'.db; faults = rest })
              ])) [ some text ↦ tt | none ↦ k ]
    close w p (err e, w') k = tt

pub in_tx-Yields :
    {P R : Db → Type 0} (b c : Error → Error) {body : Action TxEnd}
    → Yields P body (AtEnd P R)
    → Yields P (in_tx b c body) (λ _. R)
unfolding in_tx
in_tx-Yields {P} b c h =
    then-Yields P (on_error-Yields b (query-Yields (λ _. tt) (λ db p. p))) (run_tx-Yields c h)

-- A successful run, read off its equation.
pub Yields_ok :
    {A : Type 0} {P : Db → Type 0} {m : Action A} {R : A → Db → Type 0}
    → Yields P m R
    → (w : World) {w' : World} {a : A} → P w.db
    → m w ≡ (ok a, w')
    → R a w'.db
Yields_ok {R} h w p e = rw e at (h.run w p)

-- A fact that does not depend on the database.
pub fact-Yields :
    {A : Type 0} {P : Db → Type 0} {F : Type 0} {R : A → Db → Type 0} {m : Action A}
    → (F → Yields P m R)
    → Yields (λ db. P db × F) m R
fact-Yields h = record { run = λ w p. (h p.1).run w p.0 }

pub OnOk-pair :
    {A : Type 0} (P Q : Db → Type 0) (r : Result A × World)
    → OnOk (λ _. P) r
    → OnOk (λ _. Q) r
    → OnOk (λ _ db. P db × Q db) r
OnOk-pair P Q (ok a, w) p q = (p, q)
OnOk-pair P Q (err e, w) p q = tt

pub or_fail-Yields :
    {A : Type 0} (P : Db → Type 0) (o : Option A) (e : Error)
    → Yields P (or_fail o e) (λ a db. P db × (o ≡ some a))
unfolding or_fail
or_fail-Yields P none e = fail-Yields P _ e
or_fail-Yields P (some a) e = weaken-Yields (λ db p. (p, refl)) (λ _ db p. p) (pure-Yields a)

pub fail_if-Yields :
    (P : Db → Type 0) (b : Bool) (e : Error) → Yields P (fail_if b e) (λ _ db. P db × (b ≡ false))
unfolding fail_if
fail_if-Yields P true e = fail-Yields P _ e
fail_if-Yields P false e = weaken-Yields (λ db p. (p, refl)) (λ _ db p. p) (pure-Yields tt)

-- After a test that is known to hold, `fail_if` cannot have let the run go on.
pub stopped :
    {A : Type 0} (P : Db → Type 0) (b : Bool) (e : Error) (k : Action A) (R : A → Db → Type 0)
    → b ≡ true
    → Yields P (fail_if b e >> k) R
stopped P b e k R h =
    then-Yields (λ db. P db × (b ≡ false)) (fail_if-Yields P b e) (fact-Yields λ f. absurd (cc))

-- An action that cannot succeed reports an error.
pub Yields_never :
    {A : Type 0} {P : Db → Type 0} (m : Action A)
    → Yields P m (λ _ _. ⊥)
    → (w : World) → P w.db
    → (e : Error) × ((m w).0 ≡ err e)
Yields_never {A} m h w p = go (m w) (h.run w p)
  where
    go : (r : Result A × World) → OnOk (λ _ _. ⊥) r → (e : Error) × (r.0 ≡ err e)
    go (ok a, v) k = absurd k
    go (err e, v) k = (e, refl)
