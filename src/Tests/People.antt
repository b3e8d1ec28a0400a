-- ===== src/Tests/People.antt =====
-- Accounts, subcontests and leaderboards at work.
use wcwcpp_backend.Base.{none, ◌≡◌, refl, true, false, some, [], ◌∷◌}
use wcwcpp_backend.Base.Int.{pos, ◌+ℤ◌}
use wcwcpp_backend.Entity.{Uuid, User, Subcontest}
use wcwcpp_backend.Rows.{Db, UserRow, SubcontestRow, ContestStandingRow}
use wcwcpp_backend.Sql.{World, ok, monad}
use wcwcpp_backend.Sql.Laws.{calm}
use wcwcpp_backend.Sql.Order.{order_by, page}
use wcwcpp_backend.Storage.Search.{subcontest_of_row}
use wcwcpp_backend.Storage.Users.{
  create_user, find_by_email, delete_user, insert_user, user_error, without_user,
}
use wcwcpp_backend.Storage.Users.Gone.{IsDeleted, delete_user-IsDeleted}
use wcwcpp_backend.Storage.Users.Found.{create_user-find_by_email}
use wcwcpp_backend.Storage.Contests.{
  create_subcontest, get_subcontest_by_join_code, join_subcontest, list_subcontests,
  insert_subcontest, subcontest_error, insert_entry, entry_error, row_of_subcontest,
  listed_subcontest,
}
use wcwcpp_backend.Storage.Contests.Joined.{
  create_subcontest-get_subcontest_by_join_code, join_subcontest-has_subcontest_access,
  list_subcontests-has_subcontest_access,
}
use wcwcpp_backend.Storage.Leaderboard.{leaderboard, board, contest_entries, has_subcontest_access}
use wcwcpp_backend.Storage.Leaderboard.Ranked.{ArePages, leaderboard-ArePages}
use wcwcpp_backend.Storage.Leaderboard.Access.{has_subcontest_access-granted}
use wcwcpp_backend.Tests.Data.{contest, cup, db}

abbrev ann : UserRow
ann = record { id = 5; email = "ann@mail"; username = "ann" }

abbrev bob : UserRow
bob = record { id = 6; email = "bob@mail"; username = "bob" }

abbrev friends : SubcontestRow
friends = record {
  id = 70;
  contest_id = contest;
  user_id = 5;
  join_code = "ABCD2345";
  title = "Friends";
  slug = "friends";
}

abbrev score_of : Uuid → ContestStandingRow
score_of user = record {
  contest_id = contest;
  user_id = user;
  group_score = pos user;
  knockout_score = pos 1;
}

abbrev people : Db
people = record db {
  users = ann ∷ bob ∷ [];
  contests = cup ∷ [];
  subcontests = friends ∷ [];
  contest_standings = score_of 5 ∷ score_of 6 ∷ [];
}

delete_user-IsDeleted_example : IsDeleted 5 people (delete_user 5 (calm people)).1.db
unfolding delete_user without_user monad
delete_user-IsDeleted_example =
    delete_user-IsDeleted 5 (calm people) {w' = (delete_user 5 (calm people)).1} refl

abbrev carl : User
carl = record { id = 7; email = "carl@mail"; username = "carl" }

abbrev with_carl : World
with_carl = calm (record people {
  users = ann ∷ bob ∷ record { id = 7; email = "carl@mail"; username = "carl" } ∷ [];
})

create_user-find_by_email_example :
    find_by_email "carl@mail" (calm with_carl.db) ≡ (ok (some carl), calm with_carl.db)
unfolding create_user insert_user user_error monad
create_user-find_by_email_example =
    create_user-find_by_email 7 "carl@mail" "carl" (calm people) {w' = with_carl} {user = carl} refl

abbrev new_id : Uuid
new_id = 71

abbrev work : Subcontest
work = record {
  id = 0;
  contest_id = contest;
  user_id = 6;
  join_code = "WXYZ6789";
  title = "Work";
  slug = "work";
  is_owner = false;
  is_member = false;
}

abbrev with_work : World
with_work = calm (record people { subcontests = friends ∷ row_of_subcontest new_id work ∷ [] })

create_subcontest-get_subcontest_by_join_code_example :
    (new_id ≡ new_id)
    × (get_subcontest_by_join_code "WXYZ6789" (calm with_work.db)
        ≡ (ok (some (subcontest_of_row (row_of_subcontest new_id work))), calm with_work.db))
unfolding create_subcontest insert_subcontest subcontest_error monad
create_subcontest-get_subcontest_by_join_code_example =
    create_subcontest-get_subcontest_by_join_code new_id work (calm people) {given = new_id}
      {w' = with_work} refl

abbrev joined : World
joined =
    calm (record people { subcontest_entries = record { subcontest_id = 70; user_id = 6 } ∷ [] })

join_subcontest-has_subcontest_access_example :
    has_subcontest_access 6 "friends" (calm joined.db) ≡ (ok true, calm joined.db)
unfolding join_subcontest insert_entry entry_error monad
join_subcontest-has_subcontest_access_example =
    join_subcontest-has_subcontest_access friends 6 (calm people) {w' = joined} refl refl

list_subcontests-has_subcontest_access_example :
    has_subcontest_access 5 "friends" (calm joined.db) ≡ (ok true, calm joined.db)
unfolding list_subcontests monad
list_subcontests-has_subcontest_access_example =
    list_subcontests-has_subcontest_access friends 5 joined.db {w' = calm joined.db}
      {listed = listed_subcontest 5 joined.db friends ∷ []} refl refl

has_subcontest_access-granted_example :
    has_subcontest_access 6 "friends" (calm people) ≡ (ok false, calm people)
has_subcontest_access-granted_example = has_subcontest_access-granted 6 "friends" people

leaderboard-ArePages_example :
    ArePages
      (pos 1)
      (pos 0)
      (λ b. contest_entries b contest people)
      (("group", record { name = "bob"; score = pos 6 } ∷ [])
        ∷ ("knockout", record { name = "ann"; score = pos 1 } ∷ [])
        ∷ ("overall", record { name = "bob"; score = pos 7 } ∷ [])
        ∷ [])
unfolding leaderboard board contest_entries order_by page ◌+ℤ◌ monad
leaderboard-ArePages_example =
    leaderboard-ArePages none contest (pos 1) (pos 0) (calm people) {w' = calm people} refl
