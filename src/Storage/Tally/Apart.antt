-- ===== src/Storage/Tally/Apart.antt =====
-- Actions that write neither matches nor group standings.
use wcwcpp_backend.Base.{String, List, [], ◌∷◌, Dict, string_eq}
use wcwcpp_backend.Entity.{
  Uuid, GroupPick, GroupPickEntry, KnockoutPick, KnockoutPickEntry, Subcontest,
}
use wcwcpp_backend.Rows.{
  Db, GroupPickRow, KnockoutPickRow, UserRow, SubcontestRow, SubcontestEntryRow,
}
use wcwcpp_backend.Sql.{commit, no_commit, Result, ok, err}
use wcwcpp_backend.Sql.Post.{
  Yields, Then, AtEnd, then-Yields, bind-Yields, exec-Yields, pure-Yields, write-Yields,
  weaken-Yields, or_fail-Yields,
}
use wcwcpp_backend.Sql.Keeps.{
  Keeps, in_tx-Keeps, exec-Keeps, bind-Keeps, Reads-Keeps, fail_if-Keeps, write-Keeps,
}
use wcwcpp_backend.Sql.Laws.{query-Reads}
use wcwcpp_backend.Storage.Search.{get_country_code_to_id_map}
use wcwcpp_backend.Storage.Tally.Knockout.{IsKept}
use wcwcpp_backend.Storage.Picks.{
  create_group_picks, group_pick_statements, delete_letters, delete_group_picks, pick_rows,
  entry_rows, save_group_rows, insert_group_picks, group_pick_error, set_group_picks,
  enter_standings, create_knockout_picks, knockout_pick_statements, knockout_rows,
  save_knockout_rows, insert_knockout_picks, knockout_pick_error, set_knockout_picks,
  delete_knockout_picks,
}
use wcwcpp_backend.Storage.Users.{
  create_user, insert_user, user_error, set_users, delete_user, without_user,
}
use wcwcpp_backend.Storage.Contests.{
  create_subcontest, insert_subcontest, subcontest_error, set_subcontests, join_subcontest,
  insert_entry, entry_error, set_entries, delete_subcontest, without_subcontest,
}

set_group_picks-Then :
    (db : Db) (r : Result (List GroupPickRow))
    → IsKept db
    → Then (λ _. IsKept) (set_group_picks db r)
set_group_picks-Then db (ok rows) p = p
set_group_picks-Then db (err e) p = tt

entry_rows-Yields :
    (codes : Dict String Uuid) (user contest : Uuid) (pick : GroupPick) (es : List GroupPickEntry)
    → Yields IsKept (entry_rows codes user contest pick es) (λ _. IsKept)
unfolding entry_rows
entry_rows-Yields codes user contest pick [] = pure-Yields []
entry_rows-Yields codes user contest pick (e ∷ es) =
    bind-Yields (λ _. IsKept)
      (weaken-Yields (λ db p. p) (λ _ db p. p.0) (or_fail-Yields IsKept _ _))
      λ country.
        bind-Yields (λ _. IsKept) (entry_rows-Yields codes user contest pick es)
          λ rest. pure-Yields _

pick_rows-Yields :
    (codes : Dict String Uuid) (user contest : Uuid) (picks : List GroupPick)
    → Yields IsKept (pick_rows codes user contest picks) (λ _. IsKept)
unfolding pick_rows
pick_rows-Yields codes user contest [] = pure-Yields []
pick_rows-Yields codes user contest (p ∷ ps) =
    bind-Yields (λ _. IsKept) (entry_rows-Yields codes user contest p p.entries)
      λ rows.
        bind-Yields (λ _. IsKept) (pick_rows-Yields codes user contest ps) λ rest. pure-Yields _

delete_letters-Yields :
    (user contest : Uuid) (ls : List String)
    → Yields IsKept (delete_letters user contest ls) (λ _. IsKept)
unfolding delete_group_picks
delete_letters-Yields user contest [] = pure-Yields tt
delete_letters-Yields user contest (l ∷ ls) = write-Yields _ (λ db p. p)

save_group_rows-Yields :
    (user contest : Uuid) (rows : List GroupPickRow)
    → Yields IsKept (save_group_rows user contest rows) (AtEnd IsKept IsKept)
unfolding save_group_rows insert_group_picks group_pick_error enter_standings
save_group_rows-Yields user contest [] =
    weaken-Yields (λ db p. λ before q. q) (λ _ db p. p) (pure-Yields no_commit)
save_group_rows-Yields user contest (r ∷ rs) =
    then-Yields IsKept (exec-Yields _ λ db p. set_group_picks-Then db _ p)
      (then-Yields IsKept (write-Yields _ (λ db p. p)) (pure-Yields commit))

pub create_group_picks-Keeps :
    (user contest : Uuid) (picks : List GroupPick)
    → Keeps IsKept (create_group_picks user contest picks)
unfolding create_group_picks group_pick_statements get_country_code_to_id_map
create_group_picks-Keeps user contest picks =
    bind-Keeps IsKept (Reads-Keeps IsKept (query-Reads _)) λ codes. in_tx-Keeps IsKept _ _ (
      then-Yields IsKept (delete_letters-Yields user contest _) (
        bind-Yields (λ _. IsKept) (pick_rows-Yields codes user contest picks)
          λ rows. save_group_rows-Yields user contest rows))

set_knockout_picks-Then :
    (db : Db) (r : Result (List KnockoutPickRow))
    → IsKept db
    → Then (λ _. IsKept) (set_knockout_picks db r)
set_knockout_picks-Then db (ok rows) p = p
set_knockout_picks-Then db (err e) p = tt

knockout_rows-Yields :
    (codes : Dict String Uuid) (user contest : Uuid) (es : List KnockoutPickEntry)
    → Yields IsKept (knockout_rows codes user contest es) (λ _. IsKept)
unfolding knockout_rows
knockout_rows-Yields codes user contest [] = pure-Yields []
knockout_rows-Yields codes user contest (e ∷ es) =
    bind-Yields (λ _. IsKept)
      (weaken-Yields (λ db p. p) (λ _ db p. p.0) (or_fail-Yields IsKept _ _))
      λ country.
        bind-Yields (λ _. IsKept) (knockout_rows-Yields codes user contest es) λ rest. pure-Yields _

save_knockout_rows-Yields :
    (user contest : Uuid) (rows : List KnockoutPickRow)
    → Yields IsKept (save_knockout_rows user contest rows) (AtEnd IsKept IsKept)
unfolding save_knockout_rows insert_knockout_picks knockout_pick_error enter_standings
save_knockout_rows-Yields user contest [] =
    weaken-Yields (λ db p. λ before q. q) (λ _ db p. p) (pure-Yields no_commit)
save_knockout_rows-Yields user contest (r ∷ rs) =
    then-Yields IsKept (exec-Yields _ λ db p. set_knockout_picks-Then db _ p)
      (then-Yields IsKept (write-Yields _ (λ db p. p)) (pure-Yields commit))

pub create_knockout_picks-Keeps :
    (user contest : Uuid) (pick : KnockoutPick)
    → Keeps IsKept (create_knockout_picks user contest pick)
unfolding create_knockout_picks knockout_pick_statements get_country_code_to_id_map
    delete_knockout_picks
create_knockout_picks-Keeps user contest pick =
    bind-Keeps IsKept (Reads-Keeps IsKept (query-Reads _)) λ codes. in_tx-Keeps IsKept _ _ (
      then-Yields IsKept (write-Yields _ (λ db p. p)) (
        bind-Yields (λ _. IsKept) (knockout_rows-Yields codes user contest pick.entries)
          λ rows. save_knockout_rows-Yields user contest rows))

pub create_user-Keeps : (id : Uuid) (email name : String) → Keeps IsKept (create_user id email name)
unfolding create_user insert_user user_error
create_user-Keeps id email name = exec-Keeps IsKept _ λ db p. go db p _ _
  where
    go :
        (db : Db)
        → IsKept db
        → (u : UserRow) (r : Result (List UserRow)) → Then (λ _. IsKept) (set_users db u r)
    go db p u (ok rows) = p
    go db p u (err e) = tt

pub delete_user-Keeps : (user : Uuid) → Keeps IsKept (delete_user user)
unfolding delete_user without_user
delete_user-Keeps user =
    bind-Keeps IsKept (exec-Keeps IsKept _ λ db p. p) λ rows. fail_if-Keeps IsKept _ _

pub create_subcontest-Keeps : (id : Uuid) (s : Subcontest) → Keeps IsKept (create_subcontest id s)
unfolding create_subcontest insert_subcontest subcontest_error
create_subcontest-Keeps id s = exec-Keeps IsKept _ λ db p. go db p _ _
  where
    go :
        (db : Db)
        → IsKept db
        → (i : Uuid) (r : Result (List SubcontestRow)) → Then (λ _. IsKept) (set_subcontests db i r)
    go db p i (ok rows) = p
    go db p i (err e) = tt

pub join_subcontest-Keeps : (sub user : Uuid) → Keeps IsKept (join_subcontest sub user)
unfolding join_subcontest insert_entry entry_error
join_subcontest-Keeps sub user = exec-Keeps IsKept _ λ db p. go db p _
  where
    go :
        (db : Db)
        → IsKept db
        → (r : Result (List SubcontestEntryRow)) → Then (λ _. IsKept) (set_entries db r)
    go db p (ok rows) = p
    go db p (err e) = tt

pub delete_subcontest-Keeps : (sub : Uuid) → Keeps IsKept (delete_subcontest sub)
unfolding delete_subcontest without_subcontest
delete_subcontest-Keeps sub = write-Keeps IsKept _ (λ db p. p)
