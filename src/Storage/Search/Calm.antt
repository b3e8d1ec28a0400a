-- ===== src/Storage/Search/Calm.antt =====
-- A lookup on a server that refuses nothing.
use wcwcpp_backend.Base.{◌≡◌, refl, Option, none, some, List, [], ◌∷◌}
use wcwcpp_backend.Rows.{Db}
use wcwcpp_backend.Sql.{ok, monad, query_one}
use wcwcpp_backend.Sql.Laws.{calm}
use wcwcpp_backend.Storage.Search.{absent_if_no_rows}

abbrev pub first_as : {A B : Type 0} → (A → B) → List A → Option B
first_as f [] = none
first_as f (x ∷ xs) = some (f x)

pub absent_if_no_rows-calm :
    {A B : Type 0} (f : A → B) (rows : Db → List A) (db : Db)
    → absent_if_no_rows f (query_one rows) (calm db) ≡ (ok (first_as f (rows db)), calm db)
unfolding monad
absent_if_no_rows-calm {A} f rows db = go (rows db)
  where
    go :
        (xs : List A)
        → absent_if_no_rows f (query_one (λ _. xs)) (calm db) ≡ (ok (first_as f xs), calm db)
    go [] = refl
    go (x ∷ xs) = refl
