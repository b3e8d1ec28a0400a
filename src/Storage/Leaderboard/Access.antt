-- ===== src/Storage/Leaderboard/Access.antt =====
-- Who has access to a subcontest.
use wcwcpp_backend.Base.{
  String, Bool, true, false, ◌≡◌, refl, List, [], ◌∷◌, ◌||◌, ◌==◌, nat_eq, string_eq, select,
  if◌then◌else◌,
}
use wcwcpp_backend.Entity.{Uuid}
use wcwcpp_backend.Rows.{Db, SubcontestRow, SubcontestEntryRow}
use wcwcpp_backend.Sql.{Result, ok, err, message, monad, ◌>>=◌, pure, fail, query_one}
use wcwcpp_backend.Sql.Laws.{calm}
use wcwcpp_backend.Storage.Leaderboard.{
  has_subcontest_access, entry_rows_of, is_member, or_when_absent,
}

abbrev pub has_rows : {A : Type 0} → List A → Bool
has_rows [] = false
has_rows (x ∷ xs) = true

-- The owner has access, and who has an entry.
abbrev pub granted : Uuid → Db → List SubcontestRow → Result Bool
granted user db [] = err (message "subcontest not found")
granted user db (s ∷ ss) = ok (s.user_id == user || has_rows (entry_rows_of s.id user db))

is_member-granted :
    (user : Uuid) (s : SubcontestRow) (db : Db)
    → is_member user s (calm db) ≡ (ok (has_rows (entry_rows_of s.id user db)), calm db)
unfolding monad
is_member-granted user s db = go (entry_rows_of s.id user db)
  where
    go :
        (rows : List SubcontestEntryRow)
        → or_when_absent (pure false) (query_one (λ _. rows) >>= λ _. pure true) (calm db)
          ≡ (ok (has_rows rows), calm db)
    go [] = refl
    go (x ∷ xs) = refl

owner_or-granted :
    (user : Uuid) (s : SubcontestRow) (db : Db) (b : Bool)
    → (if b then pure true else is_member user s) (calm db)
      ≡ (ok (b || has_rows (entry_rows_of s.id user db)), calm db)
unfolding monad
owner_or-granted user s db true = refl
owner_or-granted user s db false = is_member-granted user s db

-- With a server that refuses nothing: a slug that no subcontest has is reported as not found;
-- otherwise the answer is yes for the subcontest's owner and for a user with an entry in it, and no
-- for every other user. The database is left as it was.
pub has_subcontest_access-granted :
    (user : Uuid) (slug : String) (db : Db)
    → has_subcontest_access user slug (calm db)
      ≡ (granted user db (select (λ s. s.slug == slug) db.subcontests), calm db)
unfolding has_subcontest_access monad
has_subcontest_access-granted user slug db = go (select (λ s. s.slug == slug) db.subcontests)
  where
    go :
        (rows : List SubcontestRow)
        → (or_when_absent (fail (message "subcontest not found")) (query_one (λ _. rows)) >>= λ s.
              if s.user_id == user then pure true else is_member user s)
            (calm db)
          ≡ (granted user db rows, calm db)
    go [] = refl
    go (s ∷ ss) = owner_or-granted user s db (s.user_id == user)
