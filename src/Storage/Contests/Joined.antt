-- ===== src/Storage/Contests/Joined.antt =====
-- The subcontests of a user: joining, listing and access agree.
use wcwcpp_backend.Base.{
  ◌≡◌, ◌∙◌, refl, sym, ap, arith, Bool, true, false, some, List, [], ◌∷◌, ◌++◌, map, ◌&&◌, ◌||◌,
  any, select, ◌==◌, ==_refl, nat_eq, string_eq,
}
use wcwcpp_backend.Entity.{Uuid, Subcontest}
use wcwcpp_backend.Rows.{Db, SubcontestRow, SubcontestEntryRow}
use wcwcpp_backend.Sql.{World, ok, monad}
use wcwcpp_backend.Sql.Laws.{exec-eq-ok, calm}
use wcwcpp_backend.Sql.Rows.{select-new}
use wcwcpp_backend.Storage.Search.{subcontest_of_row}
use wcwcpp_backend.Storage.Search.Calm.{absent_if_no_rows-calm}
use wcwcpp_backend.Storage.Leaderboard.{has_subcontest_access}
use wcwcpp_backend.Storage.Leaderboard.Access.{has_subcontest_access-granted, has_rows, granted}
use wcwcpp_backend.Storage.Contests.{
  create_subcontest, get_subcontest_by_join_code, join_subcontest, list_subcontests,
  insert_subcontest, subcontest_error, insert_entry, entry_error, row_of_subcontest, is_listed,
  has_entry, listed_subcontest,
}

insert_subcontest-new :
    (s : SubcontestRow) (db : Db) {id : Uuid} {db' : Db}
    → insert_subcontest s db ≡ ok (id, db')
    → (id ≡ s.id)
      × (any (λ t. t.join_code == s.join_code) db.subcontests ≡ false)
      × (db' ≡ record db { subcontests = db.subcontests ++ s ∷ [] })
unfolding insert_subcontest subcontest_error
insert_subcontest-new s db e = ground (arith, e)

-- The subcontest that a successful CreateSubcontest stores is the one that its join code finds next,
-- with the identifier that the server gave it, when the server refuses nothing.
pub create_subcontest-get_subcontest_by_join_code :
    (id : Uuid) (s : Subcontest) (w : World) {given : Uuid} {w' : World}
    → create_subcontest id s w ≡ (ok given, w')
    → (given ≡ id)
      × (get_subcontest_by_join_code s.join_code (calm w'.db)
          ≡ (ok (some (subcontest_of_row (row_of_subcontest id s))), calm w'.db))
unfolding create_subcontest get_subcontest_by_join_code
create_subcontest-get_subcontest_by_join_code id s w {w' = w'} e =
    let row = row_of_subcontest id s in
    let (same, free, after) =
      insert_subcontest-new row w.db (exec-eq-ok (insert_subcontest row) w e) in
    (
      same,
      absent_if_no_rows-calm subcontest_of_row
            (λ db. select (λ t. t.join_code == s.join_code) db.subcontests) w'.db
          ∙ rw
              (
                after,
                select-new (λ t. t.join_code == s.join_code) w.db.subcontests row free
                    (==_refl s.join_code),
              )
              refl,
    )

has_rows-select : {A : Type 0} (p : A → Bool) (xs : List A) → has_rows (select p xs) ≡ any p xs
has_rows-select p [] = refl
has_rows-select p (x ∷ xs) = (let ih = has_rows-select p xs in ground arith)

any-none :
    {A B : Type 0} (p q : A → Bool) (f : A → B) (k : B → Bool) (xs : List A)
    → ((y : A) → k (f y) ≡ p y)
    → select p xs ≡ []
    → any k (map f (select q xs)) ≡ false
any-none p q f k [] h e = refl
any-none p q f k (y ∷ ys) h e = (let ih = any-none p q f k ys h in let i = h y in ground arith)

-- Whether a list made from selected rows has the one row with a key.
any-one :
    {A B : Type 0} (p q : A → Bool) (f : A → B) (k : B → Bool) (xs : List A) (x : A)
    → ((y : A) → k (f y) ≡ p y)
    → select p xs ≡ x ∷ []
    → any k (map f (select q xs)) ≡ q x
any-one p q f k [] x h e = absurd (cc)
any-one p q f k (y ∷ ys) x h e =
    (let ih = any-one p q f k ys x h in
      let no = any-none p q f k ys h in let i = h y in ground arith)

insert_entry-new :
    (e : SubcontestEntryRow) (db : Db) {db' : Db}
    → insert_entry e db ≡ ok (tt, db')
    → db' ≡ record db { subcontest_entries = db.subcontest_entries ++ e ∷ [] }
unfolding insert_entry entry_error
insert_entry-new e db h = ground (arith, h)

any-last :
    {A : Type 0} (p : A → Bool) (xs : List A) (x : A) → p x ≡ true → any p (xs ++ x ∷ []) ≡ true
any-last p [] x h = rw h refl
any-last p (y ∷ ys) x h = (let ih = any-last p ys x h in ground arith)

access-one :
    (s : SubcontestRow) (user : Uuid) (db : Db)
    → select (λ t. t.slug == s.slug) db.subcontests ≡ s ∷ []
    → has_subcontest_access user s.slug (calm db)
      ≡ (ok (s.user_id == user || has_entry user db s), calm db)
access-one s user db one =
    has_subcontest_access-granted user s.slug db
    ∙ ap (λ rows. (granted user db rows, calm db)) one
    ∙ ap (λ b. (ok (s.user_id == user || b), calm db)) (has_rows-select _ db.subcontest_entries)

-- On a server that refuses nothing, a user whose JoinSubcontest succeeded has access to the
-- subcontest, if it is the only one with its slug.
pub join_subcontest-has_subcontest_access :
    (s : SubcontestRow) (user : Uuid) (w : World) {w' : World}
    → select (λ t. t.slug == s.slug) w.db.subcontests ≡ s ∷ []
    → join_subcontest s.id user w ≡ (ok tt, w')
    → has_subcontest_access user s.slug (calm w'.db) ≡ (ok true, calm w'.db)
unfolding join_subcontest
join_subcontest-has_subcontest_access s user w {w'} one e =
    let new : SubcontestEntryRow = record { subcontest_id = s.id; user_id = user } in
    let after = insert_entry-new new w.db (exec-eq-ok (insert_entry new) w e) in
    let mine = λ (r : SubcontestEntryRow). r.subcontest_id == s.id && r.user_id == user in
    let same : select (λ t. t.slug == s.slug) w'.db.subcontests ≡ s ∷ [] = rw after one in
    let found : any mine w'.db.subcontest_entries ≡ true =
      rw after (any-last mine w.db.subcontest_entries new (rw (==_refl s.id, ==_refl user) refl)) in
    access-one s user w'.db same ∙ ap (λ b. (ok b, calm w'.db)) (ground (arith, found))

-- On a server that refuses nothing, a user has access to a subcontest, the only one with its slug,
-- exactly if ListSubcontests lists it among those of its contest for the user.
pub list_subcontests-has_subcontest_access :
    (s : SubcontestRow) (user : Uuid) (db : Db) {w' : World} {listed : List Subcontest}
    → select (λ t. t.slug == s.slug) db.subcontests ≡ s ∷ []
    → list_subcontests s.contest_id user (calm db) ≡ (ok listed, w')
    → has_subcontest_access user s.slug (calm db)
      ≡ (ok (any (λ t. t.slug == s.slug) listed), calm db)
unfolding list_subcontests monad
list_subcontests-has_subcontest_access s user db {w'} {listed} one e =
    let rows : map (listed_subcontest user db)
          (select (is_listed s.contest_id user db) db.subcontests)
        ≡ listed =
      ground (arith, e) in
    access-one s user db one
    ∙ ap (λ b. (ok b, calm db))
        (sym (
          ap (λ l. any (λ t. t.slug == s.slug) l) (sym rows)
          ∙ any-one (λ t. t.slug == s.slug) (is_listed s.contest_id user db)
              (listed_subcontest user db) (λ t. t.slug == s.slug) db.subcontests s (λ y. refl) one
          ∙ rw (==_refl s.contest_id) refl))
