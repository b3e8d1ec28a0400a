-- ===== src/Storage/Users/Gone.antt =====
-- The deletion of a user.
use wcwcpp_backend.Base.{
  ◌≡◌, refl, arith, Bool, true, false, not, List, ◌==◌, ==_iff, nat_eq, any, select, All, ◌&&◌,
}
use wcwcpp_backend.Entity.{Uuid}
use wcwcpp_backend.Rows.{Db, UserRow, SubcontestRow, SubcontestEntryRow}
use wcwcpp_backend.Sql.{World, ok, delete_where, message}
use wcwcpp_backend.Sql.Post.{
  Yields, Yields_ok, bind-Yields, exec-Yields, weaken-Yields, fail_if-Yields,
}
use wcwcpp_backend.Sql.Rows.{All-select, All-passing, any-select, any-rest, select-rest}
use wcwcpp_backend.Storage.Users.{delete_user, without_user, owned, entry_falls}

abbrev pub is_user : List UserRow → Uuid → Bool
is_user users v = any (λ u. u.id == v) users

abbrev pub is_subcontest : List SubcontestRow → Uuid → Bool
is_subcontest subs i = any (λ s. s.id == i) subs

-- Every reference to a user or to a subcontest has its row.
pub record IsLinked (db : Db) : Type 0 where
  pub subcontests : All (λ s. is_user db.users s.user_id ≡ true) db.subcontests
  pub standings : All (λ r. is_user db.users r.user_id ≡ true) db.contest_standings
  pub entry_users : All (λ e. is_user db.users e.user_id ≡ true) db.subcontest_entries
  pub entry_subcontests :
      All (λ e. is_subcontest db.subcontests e.subcontest_id ≡ true) db.subcontest_entries
  pub group_picks : All (λ p. is_user db.users p.user_id ≡ true) db.group_picks
  pub knockout_picks : All (λ p. is_user db.users p.user_id ≡ true) db.knockout_picks

-- No row is about the user.
pub record IsGone (user : Uuid) (db : Db) : Type 0 where
  pub users : All (λ u. (not (u.id == user)) ≡ true) db.users
  pub subcontests : All (λ s. (not (s.user_id == user)) ≡ true) db.subcontests
  pub standings : All (λ r. (not (r.user_id == user)) ≡ true) db.contest_standings
  pub entries : All (λ e. (not (e.user_id == user)) ≡ true) db.subcontest_entries
  pub group_picks : All (λ p. (not (p.user_id == user)) ≡ true) db.group_picks
  pub knockout_picks : All (λ p. (not (p.user_id == user)) ≡ true) db.knockout_picks

-- The entry does not fall with the subcontests of the deleted user.
abbrev pub is_apart : Uuid → List SubcontestRow → SubcontestEntryRow → Bool
is_apart user subs e = not (is_subcontest (select (owned user) subs) e.subcontest_id)

-- The rows of a user, as before, save the entries in subcontests of the deleted user.
pub record IsSpared (user v : Uuid) (db db' : Db) : Type 0 where
  pub users : select (λ u. u.id == v) db'.users ≡ select (λ u. u.id == v) db.users
  pub subcontests :
      select (λ s. s.user_id == v) db'.subcontests ≡ select (λ s. s.user_id == v) db.subcontests
  pub standings :
      select (λ r. r.user_id == v) db'.contest_standings
      ≡ select (λ r. r.user_id == v) db.contest_standings
  pub entries :
      select (λ e. e.user_id == v && is_apart user db.subcontests e) db'.subcontest_entries
      ≡ select (λ e. e.user_id == v && is_apart user db.subcontests e) db.subcontest_entries
  pub group_picks :
      select (λ p. p.user_id == v) db'.group_picks ≡ select (λ p. p.user_id == v) db.group_picks
  pub knockout_picks :
      select (λ p. p.user_id == v) db'.knockout_picks
      ≡ select (λ p. p.user_id == v) db.knockout_picks

other-true :
    (u v user : Uuid) → (not (v == user)) ≡ true → (u == v) ≡ true → (not (u == user)) ≡ true
other-true u v user n e = rw ((==_iff u v).0 e) n

is_user-rest :
    (user v : Uuid) (users : List UserRow)
    → (not (v == user)) ≡ true
    → is_user users v ≡ true
    → is_user (delete_where (λ u. u.id == user) users) v ≡ true
is_user-rest user v users n e =
    any-select (λ u. u.id == v) (λ u. not (u.id == user)) users (λ u h. other-true u.id v user n h)
      e

other-false : (u v user : Uuid) → (not (v == user)) ≡ true → (u == v) ≡ true → (u == user) ≡ false
other-false u v user n e = (let k = other-true u v user n e in ground (arith, k))

entry_stays_user :
    (user : Uuid) (subs : List SubcontestRow) (e : SubcontestEntryRow)
    → (not (entry_falls user subs e)) ≡ true
    → (not (e.user_id == user)) ≡ true
entry_stays_user user subs e h = ground (arith, h)

entry_stays_sub :
    (user : Uuid) (subs : List SubcontestRow) (e : SubcontestEntryRow)
    → (not (entry_falls user subs e)) ≡ true
    → is_subcontest (select (owned user) subs) e.subcontest_id ≡ false
entry_stays_sub user subs e h = ground (arith, h)

without_user-IsLinked : (user : Uuid) (db : Db) → IsLinked db → IsLinked (without_user user db)
unfolding without_user
without_user-IsLinked user db l =
    let stays = λ (v : Uuid) (n : (not (v == user)) ≡ true) (e : is_user db.users v ≡ true).
      is_user-rest user v db.users n e in
    record {
      subcontests = All-select _ db.subcontests (λ s n e. stays s.user_id n e) l.subcontests;
      standings = All-select _ db.contest_standings (λ r n e. stays r.user_id n e) l.standings;
      entry_users =
          All-select _ db.subcontest_entries
            (λ e n i. stays e.user_id (entry_stays_user user db.subcontests e n) i) l.entry_users;
      entry_subcontests =
          All-select _ db.subcontest_entries
            (λ e n i.
              any-rest (λ s. s.id == e.subcontest_id) (owned user) db.subcontests i
                (entry_stays_sub user db.subcontests e n))
            l.entry_subcontests;
      group_picks = All-select _ db.group_picks (λ p n e. stays p.user_id n e) l.group_picks;
      knockout_picks =
          All-select _ db.knockout_picks (λ p n e. stays p.user_id n e) l.knockout_picks;
    }

without_user-IsGone : (user : Uuid) (db : Db) → IsGone user (without_user user db)
unfolding without_user
without_user-IsGone user db = record {
  users = All-passing _ db.users (λ _ h. h);
  subcontests = All-passing _ db.subcontests (λ _ h. h);
  standings = All-passing _ db.contest_standings (λ _ h. h);
  entries = All-passing _ db.subcontest_entries (λ e n. entry_stays_user user db.subcontests e n);
  group_picks = All-passing _ db.group_picks (λ _ h. h);
  knockout_picks = All-passing _ db.knockout_picks (λ _ h. h);
}

entry_stays :
    (user v : Uuid) (subs : List SubcontestRow) (e : SubcontestEntryRow)
    → (not (v == user)) ≡ true
    → (e.user_id == v && is_apart user subs e) ≡ true
    → entry_falls user subs e ≡ false
entry_stays user v subs e n h =
    let k = λ (i : (e.user_id == v) ≡ true). other-false e.user_id v user n i in
    ground (arith, h, k)

without_user-IsSpared :
    (user v : Uuid) (db : Db) → (not (v == user)) ≡ true → IsSpared user v db (without_user user db)
unfolding without_user
without_user-IsSpared user v db n = record {
  users = select-rest _ _ db.users (λ u e. other-false u.id v user n e);
  subcontests = select-rest _ _ db.subcontests (λ s e. other-false s.user_id v user n e);
  standings = select-rest _ _ db.contest_standings (λ r e. other-false r.user_id v user n e);
  entries = select-rest _ _ db.subcontest_entries (λ e h. entry_stays user v db.subcontests e n h);
  group_picks = select-rest _ _ db.group_picks (λ p e. other-false p.user_id v user n e);
  knockout_picks = select-rest _ _ db.knockout_picks (λ p e. other-false p.user_id v user n e);
}

abbrev pub IsDeleted : Uuid → Db → Db → Type 0
IsDeleted user before after =
    IsGone user after
    × (IsLinked before → IsLinked after)
    × ((v : Uuid) → (not (v == user)) ≡ true → IsSpared user v before after)

delete_user-Yields :
    (user : Uuid) (before : Db)
    → Yields (λ db. db ≡ before) (delete_user user) (λ _ db. IsDeleted user before db)
unfolding delete_user
delete_user-Yields user before =
    bind-Yields (λ _ db. IsDeleted user before db)
      (exec-Yields _ λ db e. rw e (
        without_user-IsGone user before,
        without_user-IsLinked user before,
        λ v n. without_user-IsSpared user v before n,
      ))
      (λ rows.
        weaken-Yields (λ _ p. p) (λ _ _ p. p.0)
          (fail_if-Yields (IsDeleted user before) (rows == 0) (message "user not found")))

-- After a deletion that succeeds no row of any table is about the user. If every row's user and
-- subcontest were there before, they are there after it: nothing refers to what is gone. Of every
-- other user the account, the subcontests, the standings, the picks, and the entries in subcontests
-- that were not the deleted user's are as before.
pub delete_user-IsDeleted :
    (user : Uuid) (w : World) {w' : World}
    → delete_user user w ≡ (ok tt, w')
    → IsDeleted user w.db w'.db
delete_user-IsDeleted user w e =
    Yields_ok {R = λ _ db. IsDeleted user w.db db} (delete_user-Yields user w.db) w refl e
