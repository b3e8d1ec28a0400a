-- ===== src/Sql/Laws.antt =====
-- What a run of statements guarantees whatever the server refuses.
use wcwcpp_backend.Base.{◌≡◌, refl, ap, Bool, true, false, List, [], arith, ◌∙◌}
use wcwcpp_backend.Rows.{Db}
use wcwcpp_backend.Sql.Monad.{
  Error, Result, ok, err, World, Action, ◌>>=◌, ◌>>◌, fail_if, fail, pure, exec, query, in_tx,
  TxEnd, query_one,
}

-- A server that refuses nothing.
abbrev pub calm : Db → World
calm db = record { db = db; faults = [] }

-- An action that leaves the database as it was.
abbrev pub Reads : {A : Type 0} → Action A → Type 0
Reads m = (w : World) → (m w).1.db ≡ w.db

pub query-Reads : {A : Type 0} (f : Db → A) → Reads (query f)
unfolding query
query-Reads f w = ground arith

pub query_one-Reads : {A : Type 0} (f : Db → List A) → Reads (query_one f)
unfolding query_one
query_one-Reads f w = ground arith

-- What a bind has done, if it succeeded.
pub >>=-eq-ok :
    {A B : Type 0} (m : Action A) (f : A → Action B) {w w' : World} {b : B}
    → (m >>= f) w ≡ (ok b, w')
    → (a : A) × (v : World) × (m w ≡ (ok a, v)) × (f a v ≡ (ok b, w'))
unfolding ◌>>=◌
>>=-eq-ok {A} {B} m f {w} {w'} {b} h = go (m w) refl h
  where
    go :
        (r : Result A × World)
        → m w ≡ r
        → (elim r.0 [ ok a ↦ f a r.1 | err e ↦ (err e, r.1) ]) ≡ (ok b, w')
        → (a : A) × (v : World) × (m w ≡ (ok a, v)) × (f a v ≡ (ok b, w'))
    go (ok a, v) e k = (a, v, e, k)
    go (err x, v) e k = absurd (cc)

pub exec-eq-ok :
    {A : Type 0} (f : Db → Result (A × Db)) (w : World) {w' : World} {a : A}
    → exec f w ≡ (ok a, w')
    → f w.db ≡ ok (a, w'.db)
unfolding exec
exec-eq-ok f w h = ground arith

-- An action that changes nothing when it reports an error.
abbrev pub Unchanged : {A : Type 0} → World → Result A × World → Type 0
Unchanged w (ok a, w') = Unit
Unchanged w (err e, w') = w'.db ≡ w.db

abbrev pub FailsClean : {A : Type 0} → Action A → Type 0
FailsClean m = (w : World) → Unchanged w (m w)

pub Reads-FailsClean :
    {A B : Type 0} (m : Action A) (f : A → Action B)
    → Reads m
    → ((a : A) → FailsClean (f a))
    → FailsClean (m >>= f)
unfolding ◌>>=◌
Reads-FailsClean {A} {B} m f hm hf w = go (m w) (hm w)
  where
    go :
        (r : Result A × World)
        → r.1.db ≡ w.db
        → Unchanged w
            (elim r.0 as (λ _. Result B × World) [ ok a ↦ f a r.1 | err e ↦ (err e, r.1) ])
    go (ok a, v) h = weaken (f a v) (hf a v)
      where
        weaken : (s : Result B × World) → Unchanged v s → Unchanged w s
        weaken (ok b, u) k = tt
        weaken (err e, u) k = k ∙ h
    go (err e, v) h = h

pub in_tx-FailsClean : (b c : Error → Error) (body : Action TxEnd) → FailsClean (in_tx b c body)
unfolding in_tx
in_tx-FailsClean b c body w = ground arith

pub FailsClean_lem :
    {A : Type 0} (m : Action A) (w : World) {e : Error}
    → FailsClean m
    → (m w).0 ≡ err e
    → (m w).1.db ≡ w.db
FailsClean_lem m w h k = ground (arith, h w)

-- The run of a bind whose first action succeeds, and of a guard.
pub >>=-ok :
    {A B : Type 0} (m : Action A) (f : A → Action B) {w w' : World} {a : A}
    → m w ≡ (ok a, w')
    → (m >>= f) w ≡ f a w'
unfolding ◌>>=◌
>>=-ok {A} {B} m f e =
    ap (λ r. elim r.0 as (λ _. Result B × World) [ ok a ↦ f a r.1 | err x ↦ (err x, r.1) ]) e

pub >>=-err :
    {A B : Type 0} (m : Action A) (f : A → Action B) {w w' : World} {e : Error}
    → m w ≡ (err e, w')
    → (m >>= f) w ≡ (err e, w')
unfolding ◌>>=◌
>>=-err {A} {B} m f e =
    ap (λ r. elim r.0 as (λ _. Result B × World) [ ok a ↦ f a r.1 | err x ↦ (err x, r.1) ]) e

pub fail_if-true :
    {B : Type 0} (b : Bool) (e : Error) (k : Action B) (w : World)
    → b ≡ true
    → (fail_if b e >> k) w ≡ (err e, w)
unfolding ◌>>◌ ◌>>=◌ fail_if fail
fail_if-true b e k w h = rw h refl

pub fail_if-false :
    {B : Type 0} (b : Bool) (e : Error) (k : Action B) (w : World)
    → b ≡ false
    → (fail_if b e >> k) w ≡ k w
unfolding ◌>>◌ ◌>>=◌ fail_if pure
fail_if-false b e k w h = rw h refl
