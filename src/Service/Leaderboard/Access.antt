-- ===== src/Service/Leaderboard/Access.antt =====
-- Who sees the leaderboard of a subcontest, with the repository of adapters/storage/postgres.
use wcwcpp_backend.Base.{
  ◌≡◌, refl, ◌∙◌, String, Bool, true, false, List, [], ◌∷◌, ◌||◌, ◌==◌, nat_eq, string_eq, select,
  if◌then◌else◌, Dict, not, some, ap,
}
use wcwcpp_backend.Base.Int.{ℤ}
use wcwcpp_backend.Entity.{Uuid, LeaderboardEntry}
use wcwcpp_backend.Rows.{Db, SubcontestRow}
use wcwcpp_backend.Sql.{World, Result, ok, err, message, fail_if, or_fail, pure, ◌>>=◌, ◌>>◌}
use wcwcpp_backend.Sql.Laws.{calm, >>=-ok, >>=-err, fail_if-true, fail_if-false}
use wcwcpp_backend.Storage.Search.{get_subcontest_by_slug, subcontest_of_row}
use wcwcpp_backend.Storage.Search.Calm.{absent_if_no_rows-calm, first_as}
use wcwcpp_backend.Storage.Leaderboard as Storage
use wcwcpp_backend.Storage.Leaderboard.{entry_rows_of}
use wcwcpp_backend.Storage.Leaderboard.Access.{has_subcontest_access-granted, has_rows, granted}
use wcwcpp_backend.Storage.Postgres.{Outside, leaderboards}
use wcwcpp_backend.Service.Leaderboard.{subleaderboard}

-- What a user is shown who asks for the leaderboard of the first of some subcontests.
abbrev pub shown_to :
    Outside
    → Uuid
    → ℤ
    → ℤ
    → Db
    → List SubcontestRow
    → Result (Dict String (List LeaderboardEntry)) × World
shown_to o user limit offset db [] = (err (message "subcontest not found"), calm db)
shown_to o user limit offset db (s ∷ ss) =
    if s.user_id == user || has_rows (entry_rows_of s.id user db)
    then Storage.subleaderboard o.bad_offset s.id limit offset (calm db)
    else (err (message "permission denied: no access to subcontest"), calm db)

-- The rest of the service's method, once the answer on access is there.
after_access :
    (o : Outside) (user : Uuid) (slug : String) (limit offset : ℤ) (db : Db) (s : SubcontestRow)
    (access : Bool)
    → get_subcontest_by_slug slug (calm db) ≡ (ok (some (subcontest_of_row s)), calm db)
    → (fail_if (not access) (message "permission denied: no access to subcontest")
          >> (get_subcontest_by_slug slug >>= λ found.
              or_fail found (message "subcontest not found") >>= λ sub.
              Storage.subleaderboard o.bad_offset sub.id limit offset))
        (calm db)
      ≡ (if access
          then Storage.subleaderboard o.bad_offset s.id limit offset (calm db)
          else (err (message "permission denied: no access to subcontest"), calm db))
unfolding or_fail pure
after_access o user slug limit offset db s true found =
    fail_if-false _ _ _ (calm db) refl ∙ >>=-ok _ _ found ∙ >>=-ok _ _ refl
after_access o user slug limit offset db s false found = fail_if-true _ _ _ (calm db) refl

-- With a server that refuses nothing: for a slug that no subcontest has, the leaderboard is reported
-- as not found; the subcontest's owner and a user with an entry in it are shown the leaderboard of
-- that very subcontest; every other user is refused. A refusal leaves the database as it was.
pub subleaderboard-members :
    (o : Outside) (user : Uuid) (slug : String) (limit offset : ℤ) (db : Db)
    → subleaderboard (leaderboards o) user slug limit offset (calm db)
      ≡ shown_to o user limit offset db (select (λ s. s.slug == slug) db.subcontests)
unfolding subleaderboard leaderboards get_subcontest_by_slug
subleaderboard-members o user slug limit offset db =
    go (select (λ s. s.slug == slug) db.subcontests) refl
  where
    go :
        (rows : List SubcontestRow)
        → select (λ s. s.slug == slug) db.subcontests ≡ rows
        → subleaderboard (leaderboards o) user slug limit offset (calm db)
          ≡ shown_to o user limit offset db rows
    go [] e =
        >>=-err _ _
          (has_subcontest_access-granted user slug db ∙ ap (λ r. (granted user db r, calm db)) e)
    go (s ∷ ss) e =
        let asked =
          has_subcontest_access-granted user slug db ∙ ap (λ r. (granted user db r, calm db)) e in
        let found =
          absent_if_no_rows-calm subcontest_of_row (λ d. select (λ t. t.slug == slug) d.subcontests)
            db
          ∙ ap (λ r. (ok (first_as subcontest_of_row r), calm db)) e in
        >>=-ok _ _ asked ∙ after_access o user slug limit offset db s _ found
