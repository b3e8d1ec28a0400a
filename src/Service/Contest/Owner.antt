-- ===== src/Service/Contest/Owner.antt =====
-- Who may delete a subcontest, with the repository of adapters/storage/postgres.
use wcwcpp_backend.Base.{
  ◌≡◌, refl, ◌∙◌, ap, not, String, Bool, true, false, List, [], ◌∷◌, ◌==◌, nat_eq, string_eq,
  select, if◌then◌else◌,
}
use wcwcpp_backend.Entity.{Uuid}
use wcwcpp_backend.Rows.{Db, SubcontestRow}
use wcwcpp_backend.Sql.{
  World, Result, Done, ok, err, message, fail_if, or_fail, pure, ◌>>◌, fail, monad,
}
use wcwcpp_backend.Sql.Laws.{calm, >>=-ok, >>=-err}
use wcwcpp_backend.Storage.Search.{get_subcontest_by_slug, subcontest_of_row}
use wcwcpp_backend.Storage.Search.Calm.{absent_if_no_rows-calm, first_as}
use wcwcpp_backend.Storage.Contests as Storage
use wcwcpp_backend.Storage.Contests.{without_subcontest}
use wcwcpp_backend.Storage.Postgres.{Outside, contests}
use wcwcpp_backend.Service.Contest.{delete_subcontest}

-- The database without a subcontest and without the entries in it.
abbrev pub bereft : Uuid → Db → Db
bereft id db = record db {
  subcontests = select (λ s. not (s.id == id)) db.subcontests;
  subcontest_entries = select (λ e. not (e.subcontest_id == id)) db.subcontest_entries;
}

-- What becomes of a user's request to delete the first of some subcontests.
abbrev pub deleted_by : Uuid → Db → List SubcontestRow → Result Done × World
deleted_by user db [] = (err (message "subcontest not found"), calm db)
deleted_by user db (s ∷ ss) =
    if s.user_id == user
    then (ok tt, calm (bereft s.id db))
    else (err (message "not owner"), calm db)

owned_by :
    (user : Uuid) (db : Db) (s : SubcontestRow) (own : Bool)
    → (fail_if (not own) (message "not owner") >> Storage.delete_subcontest s.id) (calm db)
      ≡ (if own then (ok tt, calm (bereft s.id db)) else (err (message "not owner"), calm db))
unfolding Storage.delete_subcontest without_subcontest monad
owned_by user db s true = refl
owned_by user db s false = refl

-- With a server that refuses nothing: a slug that no subcontest has is reported as not found; the
-- owner's request deletes that subcontest and every entry in it, and nothing else; the request of
-- every other user is refused. A refusal leaves the database as it was.
pub delete_subcontest-owned :
    (o : Outside) (user : Uuid) (slug : String) (db : Db)
    → delete_subcontest (contests o) user slug (calm db)
      ≡ deleted_by user db (select (λ s. s.slug == slug) db.subcontests)
unfolding delete_subcontest contests get_subcontest_by_slug or_fail pure fail
delete_subcontest-owned o user slug db = go (select (λ s. s.slug == slug) db.subcontests) refl
  where
    go :
        (rows : List SubcontestRow)
        → select (λ s. s.slug == slug) db.subcontests ≡ rows
        → delete_subcontest (contests o) user slug (calm db) ≡ deleted_by user db rows
    go [] e =
        >>=-ok _ _ (
          absent_if_no_rows-calm subcontest_of_row (λ d. select (λ t. t.slug == slug) d.subcontests)
            db
          ∙ ap (λ r. (ok (first_as subcontest_of_row r), calm db)) e)
        ∙ >>=-err _ _ refl
    go (s ∷ ss) e =
        >>=-ok _ _ (
          absent_if_no_rows-calm subcontest_of_row (λ d. select (λ t. t.slug == slug) d.subcontests)
            db
          ∙ ap (λ r. (ok (first_as subcontest_of_row r), calm db)) e)
        ∙ >>=-ok _ _ refl
        ∙ owned_by user db s (s.user_id == user)
