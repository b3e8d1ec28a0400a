-- ===== src/Storage/Award/Elsewhere.antt =====
-- Payments write `contest_standings` only.
use wcwcpp_backend.Base.{List, [], ◌∷◌, if_elim}
use wcwcpp_backend.Base.Int.{ℤ}
use wcwcpp_backend.Entity.{Uuid}
use wcwcpp_backend.Rows.{Db, ContestStandingRow}
use wcwcpp_backend.Sql.{Error, ok, err, driver}
use wcwcpp_backend.Sql.Post.{Yields, Then, then-Yields, on_error-Yields, exec-Yields, pure-Yields}
use wcwcpp_backend.Storage.Award.{Stage, award, award_all, paid, is_refused}

pub award_all-elsewhere :
    (P : Db → Type 0)
    → ((db : Db) (rows : List ContestStandingRow)
        → P db
        → P (record db { contest_standings = rows }))
    → (f : Error → Error) (st : Stage) (contest : Uuid) (points : ℤ) (us : List Uuid)
    → Yields P (award_all f st contest points us) (λ _. P)
unfolding award_all award paid
award_all-elsewhere P keeps f st contest points [] = pure-Yields tt
award_all-elsewhere P keeps f st contest points (u ∷ us) =
    then-Yields P
      (on_error-Yields f (
        exec-Yields (award st contest u points) λ db p.
          if_elim (Then _) (is_refused st contest u points db) (err (driver "integer out of range"))
            (ok (tt, paid st contest u points db)) tt (keeps db _ p)))
      (award_all-elsewhere P keeps f st contest points us)
