-- ===== src/Sql/Monad.antt =====
-- Errors as values, statements, and transactions.
use wcwcpp_backend.Base.{ℕ, String, Bool, true, false, Option, none, some, List, [], ◌∷◌}
use wcwcpp_backend.Rows.{Db}

-- `errors.New`, `fmt.Errorf` with one number or one text in it, `fmt.Errorf` with `%w`,
-- `qrm.ErrNoRows`, and what the driver reports.
pub data Error : Type 0 where
  message : String → Error
  counted : String → ℕ → String → Error
  quoted : String → String → String → Error
  wrap : String → Error → Error
  no_rows : Error
  driver : String → Error

pub data Result (A : Type 0) : Type 0 where
  ok : A → Result A
  err : Error → Result A

pub record World : Type 0 where
  pub db : Db
  pub faults : List (Option String)

abbrev pub Action : Type 0 → Type 0
Action A = World → Result A × World

abbrev pub Done : Type 0
Done = Unit

module _ {A : Type 0} where
  unfoldable pub pure : A → Action A
  pure a w = (ok a, w)

  unfoldable pub fail : Error → Action A
  fail e w = (err e, w)

infixl 5 ◌>>=◌ ◌>>◌
unfoldable pub ◌>>=◌ : {A B : Type 0} → Action A → (A → Action B) → Action B
◌>>=◌ m f w = let (r, w') = m w in elim r [ ok a ↦ f a w' | err e ↦ (err e, w') ]

unfoldable pub ◌>>◌ : {A B : Type 0} → Action A → Action B → Action B
unfolding ◌>>=◌
m >> k = m >>= λ _. k

-- `if err != nil { return f(err) }`, mostly with f a `fmt.Errorf("…: %w", err)`.
unfoldable pub on_error : {A : Type 0} → (Error → Error) → Action A → Action A
on_error f m w = let (r, w') = m w in elim r [ ok a ↦ (ok a, w') | err e ↦ (err (f e), w') ]

unfoldable pub fail_if : Bool → Error → Action Done
unfolding fail pure
fail_if true e = fail e
fail_if false e = pure tt

unfoldable pub or_fail : {A : Type 0} → Option A → Error → Action A
unfolding fail pure
or_fail none e = fail e
or_fail (some a) e = pure a

-- Whether the next statement is refused, and the answers to those after it.
abbrev pub pop_fault : List (Option String) → Option String × List (Option String)
pop_fault [] = (none, [])
pop_fault (b ∷ bs) = (b, bs)

abbrev pub answer : {A : Type 0} → World → Result (A × Db) → Result A × World
answer w (ok (a, db')) = (ok a, record w { db = db' })
answer w (err e) = (err e, w)

-- One statement: refused by the server, or run whole on the tables.
unfoldable pub exec : {A : Type 0} → (Db → Result (A × Db)) → Action A
exec f w =
    let (bad, rest) = pop_fault w.faults in
    let next : World = record { db = w.db; faults = rest } in
    elim bad [ some text ↦ (err (driver text), next) | none ↦ answer next (f w.db) ]

-- A statement that reads.
unfoldable pub query : {A : Type 0} → (Db → A) → Action A
unfolding exec
query f = exec (λ db. ok (f db, db))

abbrev pub first_row : {A : Type 0} → List A → Result A
first_row [] = err no_rows
first_row (a ∷ _) = ok a

abbrev pub with_db : {A : Type 0} → Db → Result A → Result (A × Db)
with_db db (ok a) = ok (a, db)
with_db db (err e) = err e

-- A query into one struct: the first row, or `qrm.ErrNoRows`.
unfoldable pub query_one : {A : Type 0} → (Db → List A) → Action A
unfolding exec
query_one f = exec (λ db. with_db db (first_row (f db)))

unfoldable pub write : (Db → Db) → Action Done
unfolding exec
write f = exec (λ db. ok (tt, f db))

-- How a transaction's function ends without an error: through `tx.Commit()`, or by a `return nil`
-- before it, after which the deferred rollback undoes its statements.
pub data TxEnd : Type 0 where
  commit : TxEnd
  no_commit : TxEnd

abbrev pub roll_back : World → World → World
roll_back w w' = record w' { db = w.db }

-- The commit is a message to the server as well.
abbrev pub close_tx : (Error → Error) → World → Result TxEnd × World → Result Done × World
close_tx on_commit w (err e, w') = (err e, roll_back w w')
close_tx on_commit w (ok no_commit, w') = (ok tt, roll_back w w')
close_tx on_commit w (ok commit, w') =
    let (bad, rest) = pop_fault w'.faults in
    elim bad [
      | some text ↦ (err (on_commit (driver text)), record { db = w.db; faults = rest })
      | none ↦ (ok tt, record { db = w'.db; faults = rest })
    ]

abbrev pub run_tx : (Error → Error) → Action TxEnd → Action Done
run_tx on_commit body w = close_tx on_commit w (body w)

-- `tx, err := BeginTx()`, `defer tx.Rollback()`, the statements and `tx.Commit()`. The first two
-- arguments are what the code makes of a refused begin and of a refused commit.
unfoldable pub in_tx : (Error → Error) → (Error → Error) → Action TxEnd → Action Done
unfolding query exec on_error ◌>>◌
in_tx on_begin on_commit body = on_error on_begin (query (λ _. tt)) >> run_tx on_commit body

-- Opens the whole monad for a proof or a test that computes.
unfoldable pub monad : Unit {0}
unfolding pure fail ◌>>=◌ ◌>>◌ on_error fail_if or_fail exec query query_one write in_tx
monad = tt
