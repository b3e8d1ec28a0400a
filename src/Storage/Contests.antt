-- ===== src/Storage/Contests.antt =====
-- `ContestRepository` of adapters/storage/postgres/contest.go: the lists of contests and of
-- subcontests, and the statements that make, join and delete them, with the constraints of
-- db/schema.sql. The identifier of a new row is the server's `uuid_generate_v4()`, an argument here.
pub mod Setup
pub mod Joined
use wcwcpp_backend.Base.{
  String, Bool, not, Option, List, [], ◌∷◌, map, ◌&&◌, ◌||◌, ◌==◌, nat_eq, string_eq, select, any,
}
use wcwcpp_backend.Entity.{Uuid, Contest, Subcontest}
use wcwcpp_backend.Rows.{Db, ContestRow, SubcontestRow, SubcontestEntryRow}
use wcwcpp_backend.Sql.{
  Action, Done, Result, ok, err, Error, query, query_one, exec, write, delete_where, insert_rows,
}
use wcwcpp_backend.Sql.Clash.{duplicate_key, missing_key, too_long, is_longer, first_broken}
use wcwcpp_backend.Storage.Search.{absent_if_no_rows, contest_of_row, subcontest_of_row}

unfoldable pub list_contests : Action (List Contest)
list_contests = query (λ db. map contest_of_row db.contests)

unfoldable pub contest_error : ContestRow → List ContestRow → Option Error
contest_error c rows = first_broken (
    (is_longer c.title 255, too_long "255")
    ∷ (is_longer c.slug 255, too_long "255")
    ∷ (any (λ d. d.id == c.id) rows, duplicate_key)
    ∷ (any (λ d. d.title == c.title) rows, duplicate_key)
    ∷ (any (λ d. d.slug == c.slug) rows, duplicate_key)
    ∷ [])

abbrev pub set_contests : Db → Uuid → Result (List ContestRow) → Result (Uuid × Db)
set_contests db id (ok rows) = ok (id, record db { contests = rows })
set_contests db id (err e) = err e

abbrev pub row_of_contest : Uuid → Contest → ContestRow
row_of_contest id c = record {
  id = id;
  title = c.title;
  slug = c.slug;
  group_unlock_date = c.group_unlock_date;
  group_lock_date = c.group_lock_date;
  knockout_unlock_date = c.knockout_unlock_date;
  knockout_lock_date = c.knockout_lock_date;
}

unfoldable pub insert_contest : ContestRow → Db → Result (Uuid × Db)
unfolding contest_error
insert_contest c db = set_contests db c.id (insert_rows contest_error (c ∷ []) db.contests)

unfoldable pub create_contest : Uuid → Contest → Action Uuid
create_contest id contest = exec (insert_contest (row_of_contest id contest))

unfoldable pub subcontest_error : Db → SubcontestRow → List SubcontestRow → Option Error
subcontest_error db s rows = first_broken (
    (is_longer s.join_code 8, too_long "8")
    ∷ (is_longer s.title 255, too_long "255")
    ∷ (is_longer s.slug 255, too_long "255")
    ∷ (any (λ t. t.id == s.id) rows, duplicate_key)
    ∷ (any (λ t. t.join_code == s.join_code) rows, duplicate_key)
    ∷ (any (λ t. t.title == s.title) rows, duplicate_key)
    ∷ (any (λ t. t.slug == s.slug) rows, duplicate_key)
    ∷ (not (any (λ c. c.id == s.contest_id) db.contests), missing_key)
    ∷ (not (any (λ u. u.id == s.user_id) db.users), missing_key)
    ∷ [])

abbrev pub set_subcontests : Db → Uuid → Result (List SubcontestRow) → Result (Uuid × Db)
set_subcontests db id (ok rows) = ok (id, record db { subcontests = rows })
set_subcontests db id (err e) = err e

abbrev pub row_of_subcontest : Uuid → Subcontest → SubcontestRow
row_of_subcontest id s = record {
  id = id;
  contest_id = s.contest_id;
  user_id = s.user_id;
  join_code = s.join_code;
  title = s.title;
  slug = s.slug;
}

unfoldable pub insert_subcontest : SubcontestRow → Db → Result (Uuid × Db)
unfolding subcontest_error
insert_subcontest s db =
    set_subcontests db s.id (insert_rows (subcontest_error db) (s ∷ []) db.subcontests)

unfoldable pub create_subcontest : Uuid → Subcontest → Action Uuid
create_subcontest id subcontest = exec (insert_subcontest (row_of_subcontest id subcontest))

abbrev pub same_entry : SubcontestEntryRow → SubcontestEntryRow → Bool
same_entry e f = f.subcontest_id == e.subcontest_id && f.user_id == e.user_id

unfoldable pub entry_error : Db → SubcontestEntryRow → List SubcontestEntryRow → Option Error
entry_error db e rows = first_broken (
    (any (same_entry e) rows, duplicate_key)
    ∷ (not (any (λ s. s.id == e.subcontest_id) db.subcontests), missing_key)
    ∷ (not (any (λ u. u.id == e.user_id) db.users), missing_key)
    ∷ [])

abbrev pub set_entries : Db → Result (List SubcontestEntryRow) → Result (Done × Db)
set_entries db (ok rows) = ok (tt, record db { subcontest_entries = rows })
set_entries db (err e) = err e

unfoldable pub insert_entry : SubcontestEntryRow → Db → Result (Done × Db)
unfolding entry_error
insert_entry e db = set_entries db (insert_rows (entry_error db) (e ∷ []) db.subcontest_entries)

unfoldable pub join_subcontest : Uuid → Uuid → Action Done
join_subcontest subcontest user =
    exec (insert_entry (record { subcontest_id = subcontest; user_id = user }))

-- The left join with the user's own entry: one row for each subcontest, since an entry's key is the
-- subcontest and the user.
abbrev pub has_entry : Uuid → Db → SubcontestRow → Bool
has_entry user db s = any (λ e. e.subcontest_id == s.id && e.user_id == user) db.subcontest_entries

abbrev pub is_listed : Uuid → Uuid → Db → SubcontestRow → Bool
is_listed contest user db s = s.contest_id == contest && (s.user_id == user || has_entry user db s)

abbrev pub listed_subcontest : Uuid → Db → SubcontestRow → Subcontest
listed_subcontest user db s = record (subcontest_of_row s) {
  is_owner = s.user_id == user;
  is_member = has_entry user db s;
}

unfoldable pub list_subcontests : Uuid → Uuid → Action (List Subcontest)
list_subcontests contest user =
    query
      (λ db. map (listed_subcontest user db) (select (is_listed contest user db) db.subcontests))

unfoldable pub get_subcontest_by_join_code : String → Action (Option Subcontest)
get_subcontest_by_join_code join_code =
    absent_if_no_rows subcontest_of_row
      (query_one (λ db. select (λ s. s.join_code == join_code) db.subcontests))

-- DELETE FROM subcontests, with the cascade to its entries.
unfoldable pub without_subcontest : Uuid → Db → Db
without_subcontest id db = record db {
  subcontests = delete_where (λ s. s.id == id) db.subcontests;
  subcontest_entries = delete_where (λ e. e.subcontest_id == id) db.subcontest_entries;
}

unfoldable pub delete_subcontest : Uuid → Action Done
delete_subcontest id = write (without_subcontest id)
