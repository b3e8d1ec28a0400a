-- ===== src/Storage/Users/Found.antt =====
-- A new account is found.
use wcwcpp_backend.Base.{
  ◌≡◌, ◌∙◌, refl, arith, String, false, some, ◌++◌, [], ◌∷◌, any, select, ◌==◌, ==_refl, nat_eq,
  string_eq,
}
use wcwcpp_backend.Entity.{Uuid, User}
use wcwcpp_backend.Rows.{Db, UserRow}
use wcwcpp_backend.Sql.{World, ok}
use wcwcpp_backend.Sql.Laws.{exec-eq-ok, calm}
use wcwcpp_backend.Sql.Rows.{select-new}
use wcwcpp_backend.Storage.Search.Calm.{absent_if_no_rows-calm}
use wcwcpp_backend.Storage.Users.{create_user, find_by_email, insert_user, user_error, user_of_row}

abbrev pub IsNew : UserRow → User → Db → Db → Type 0
IsNew u user before after =
    (user ≡ user_of_row u)
    × (any (λ v. v.email == u.email) before.users ≡ false)
    × (after ≡ record before { users = before.users ++ u ∷ [] })

insert_user-IsNew :
    (u : UserRow) (db : Db) {user : User} {db' : Db}
    → insert_user u db ≡ ok (user, db')
    → IsNew u user db db'
unfolding insert_user user_error
insert_user-IsNew u db e = ground (arith, e)

find_by_email-new :
    (u : UserRow) {user : User} (before after : Db)
    → IsNew u user before after
    → find_by_email u.email (calm after) ≡ (ok (some user), calm after)
unfolding find_by_email
find_by_email-new u before after (e, n, a) =
    absent_if_no_rows-calm user_of_row (λ db. select (λ v. v.email == u.email) db.users) after
    ∙ rw (e, a, select-new (λ v. v.email == u.email) before.users u n (==_refl u.email)) refl

-- The account that a successful CreateUser returns is the one that FindByEmail finds next by its
-- email, when the server refuses nothing: the email had no account before.
pub create_user-find_by_email :
    (id : Uuid) (email username : String) (w : World) {w' : World} {user : User}
    → create_user id email username w ≡ (ok user, w')
    → find_by_email email (calm w'.db) ≡ (ok (some user), calm w'.db)
unfolding create_user
create_user-find_by_email id email username w {w'} e =
    let u : UserRow = record { id = id; email = email; username = username } in
    find_by_email-new u w.db w'.db (insert_user-IsNew u w.db (exec-eq-ok (insert_user u) w e))
