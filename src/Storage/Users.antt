-- ===== src/Storage/Users.antt =====
-- `UserRepository` of adapters/storage/postgres/user.go, with the constraints of db/schema.sql on
-- the table of users and the cascades of a deletion. The identifier of a new user is the server's
-- `uuid_generate_v4()`, an argument here.
pub mod Found
pub mod Gone
use wcwcpp_backend.Base.{
  ℕ, String, Bool, not, Option, List, [], ◌∷◌, ◌&&◌, ◌||◌, ◌==◌, nat_eq, string_eq, select, any,
  length,
}
use wcwcpp_backend.Entity.{Uuid, User}
use wcwcpp_backend.Rows.{Db, UserRow, SubcontestRow, SubcontestEntryRow}
use wcwcpp_backend.Sql.{
  Action, Done, Result, ok, err, Error, message, pure, fail_if, query, query_one, exec, ◌>>=◌, ◌>>◌,
  delete_where, insert_rows,
}
use wcwcpp_backend.Sql.Clash.{duplicate_key, too_long, is_longer, first_broken}
use wcwcpp_backend.Storage.Search.{absent_if_no_rows}

abbrev pub user_of_row : UserRow → User
user_of_row u = record { id = u.id; email = u.email; username = u.username }

unfoldable pub find_by_email : String → Action (Option User)
find_by_email email =
    absent_if_no_rows user_of_row (query_one (λ db. select (λ u. u.email == email) db.users))

-- The primary key, `UNIQUE` and `VARCHAR(n)`.
unfoldable pub user_error : UserRow → List UserRow → Option Error
user_error u users = first_broken (
    (is_longer u.email 255, too_long "255")
    ∷ (is_longer u.username 50, too_long "50")
    ∷ (any (λ v. v.id == u.id) users, duplicate_key)
    ∷ (any (λ v. v.email == u.email) users, duplicate_key)
    ∷ (any (λ v. v.username == u.username) users, duplicate_key)
    ∷ [])

abbrev pub set_users : Db → UserRow → Result (List UserRow) → Result (User × Db)
set_users db u (ok rows) = ok (user_of_row u, record db { users = rows })
set_users db u (err e) = err e

unfoldable pub insert_user : UserRow → Db → Result (User × Db)
unfolding user_error
insert_user u db = set_users db u (insert_rows user_error (u ∷ []) db.users)

unfoldable pub create_user : Uuid → String → String → Action User
create_user id email username =
    exec (insert_user (record { id = id; email = email; username = username }))

unfoldable pub count_users : Action ℕ
count_users = query (λ db. length db.users)

-- A subcontest that goes with a user.
abbrev pub owned : Uuid → SubcontestRow → Bool
owned user s = s.user_id == user

-- An entry that goes with a user or with a subcontest of the user.
abbrev pub entry_falls : Uuid → List SubcontestRow → SubcontestEntryRow → Bool
entry_falls user subs e =
    e.user_id == user || any (λ s. s.id == e.subcontest_id) (select (owned user) subs)

-- DELETE FROM users, with each `ON DELETE CASCADE`.
unfoldable pub without_user : Uuid → Db → Db
without_user user db = record db {
  users = delete_where (λ u. u.id == user) db.users;
  subcontests = delete_where (owned user) db.subcontests;
  contest_standings = delete_where (λ r. r.user_id == user) db.contest_standings;
  subcontest_entries = delete_where (entry_falls user db.subcontests) db.subcontest_entries;
  group_picks = delete_where (λ p. p.user_id == user) db.group_picks;
  knockout_picks = delete_where (λ p. p.user_id == user) db.knockout_picks;
}

unfoldable pub delete_user : Uuid → Action Done
delete_user user = do
  rows ← exec (λ db. ok (length (select (λ u. u.id == user) db.users), without_user user db))
  fail_if (rows == 0) (message "user not found")
