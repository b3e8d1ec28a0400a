-- ===== src/Sql/Keeps.antt =====
-- Actions that keep a property of the database, whether they succeed or report an error.
use wcwcpp_backend.Base.{sym, Bool, true, false, Option, none, some, if◌then◌else◌, if_elim}
use wcwcpp_backend.Rows.{Db}
use wcwcpp_backend.Sql.Monad.{
  Error, Result, ok, err, World, Action, TxEnd, ◌>>=◌, ◌>>◌, pure, fail, exec, pop_fault, answer,
  driver, in_tx, fail_if, or_fail, write, on_error,
}
use wcwcpp_backend.Sql.Laws.{Reads, Unchanged, in_tx-FailsClean}
use wcwcpp_backend.Sql.Post.{Yields, OnOk, Then, AtEnd, in_tx-Yields}
use mathlib.Core.Path.{subst}

pub record Keeps {A : Type 0} (P : Db → Type 0) (m : Action A) : Type 0 where
  pub run : (w : World) → P w.db → P (m w).1.db

pub pure-Keeps : {A : Type 0} (P : Db → Type 0) (a : A) → Keeps P (pure a)
unfolding pure
pure-Keeps P a = record { run = λ w p. p }

pub fail-Keeps : {A : Type 0} (P : Db → Type 0) (e : Error) → Keeps {A = A} P (fail e)
unfolding fail
fail-Keeps P e = record { run = λ w p. p }

pub Reads-Keeps : {A : Type 0} (P : Db → Type 0) {m : Action A} → Reads m → Keeps P m
Reads-Keeps P h = record { run = λ w p. subst P (sym (h w)) p }

pub bind-Keeps :
    {A B : Type 0} (P : Db → Type 0) {m : Action A} {f : A → Action B}
    → Keeps P m
    → ((a : A) → Keeps P (f a))
    → Keeps P (m >>= f)
unfolding ◌>>=◌
bind-Keeps {A} {B} P {m} {f} hm hf = record { run = λ w p. go (m w) (hm.run w p) }
  where
    go :
        (r : Result A × World)
        → P r.1.db
        → P (elim r.0 as (λ _. Result B × World) [ ok a ↦ f a r.1 | err e ↦ (err e, r.1) ]).1.db
    go (ok a, v) p = (hf a).run v p
    go (err e, v) p = p

pub then-Keeps :
    {A B : Type 0} (P : Db → Type 0) {m : Action A} {k : Action B}
    → Keeps P m
    → Keeps P k
    → Keeps P (m >> k)
unfolding ◌>>◌
then-Keeps P hm hk = bind-Keeps P hm (λ _. hk)

pub if-Keeps :
    {A : Type 0} (P : Db → Type 0) (b : Bool) {m k : Action A}
    → Keeps P m
    → Keeps P k
    → Keeps P (if b then m else k)
if-Keeps P b hm hk = if_elim (λ a. Keeps P a) b _ _ hm hk

pub fail_if-Keeps : (P : Db → Type 0) (b : Bool) (e : Error) → Keeps P (fail_if b e)
unfolding fail_if
fail_if-Keeps P true e = fail-Keeps P e
fail_if-Keeps P false e = pure-Keeps P tt

pub or_fail-Keeps :
    {A : Type 0} (P : Db → Type 0) (o : Option A) (e : Error) → Keeps P (or_fail o e)
unfolding or_fail
or_fail-Keeps P none e = fail-Keeps P e
or_fail-Keeps P (some a) e = pure-Keeps P a

pub exec-Keeps :
    {A : Type 0} (P : Db → Type 0) (f : Db → Result (A × Db))
    → ((db : Db) → P db → Then (λ _. P) (f db))
    → Keeps P (exec f)
unfolding exec
exec-Keeps {A} P f h = record {
  run = λ w p.
      elim (pop_fault w.faults).0
        as (λ bad.
          let next : World = record { db = w.db; faults = (pop_fault w.faults).1 } in
          P
            (elim bad as (λ _. Result A × World) [
              | some text ↦ (err (driver text), next)
              | none ↦ answer next (f w.db)
            ]).1.db) [ some text ↦ p | none ↦ go w p (f w.db) (h w.db p) ];
}
  where
    go :
        (w : World)
        → P w.db
        → (r : Result (A × Db)) → Then (λ _. P) r
        → P (answer (record { db = w.db; faults = (pop_fault w.faults).1 }) r).1.db
    go w p (ok (a, db')) k = k
    go w p (err x) k = p

-- A transaction whose statements keep the property as far as they succeed.
pub in_tx-Keeps :
    (P : Db → Type 0) (b c : Error → Error) {body : Action TxEnd}
    → Yields P body (AtEnd P P)
    → Keeps P (in_tx b c body)
in_tx-Keeps P b c {body} h = record {
  run =
      λ w p. go w p (in_tx b c body w) ((in_tx-Yields b c h).run w p) (in_tx-FailsClean b c body w);
}
  where
    go :
        (w : World)
        → P w.db
        → (r : Result Unit × World) → OnOk (λ _. P) r
        → Unchanged w r
        → P r.1.db
    go w p (ok a, v) k same = k
    go w p (err e, v) k same = subst P (sym same) p

pub write-Keeps :
    (P : Db → Type 0) (f : Db → Db) → ((db : Db) → P db → P (f db)) → Keeps P (write f)
unfolding write
write-Keeps P f h = exec-Keeps P (λ db. ok (tt, f db)) h

pub on_error-Keeps :
    {A : Type 0} (P : Db → Type 0) (g : Error → Error) {m : Action A}
    → Keeps P m
    → Keeps P (on_error g m)
unfolding on_error
on_error-Keeps {A} P g {m} h = record { run = λ w p. go (m w) (h.run w p) }
  where
    go :
        (r : Result A × World)
        → P r.1.db
        → P
            (elim r.0 as (λ _. Result A × World) [
              | ok a ↦ (ok a, r.1)
              | err e ↦ (err (g e), r.1)
            ]).1.db
    go (ok a, v) p = p
    go (err e, v) p = p
