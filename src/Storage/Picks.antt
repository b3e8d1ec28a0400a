-- ===== src/Storage/Picks.antt =====
-- The writes of `PicksRepository`, adapters/storage/postgres/picks.go, with the constraints of
-- db/schema.sql on the rows that they insert: the primary keys, the foreign keys and `VARCHAR(1)`.
pub mod Chosen
pub mod Replace
use wcwcpp_backend.Base.{
  String, Bool, Option, none, some, List, [], ◌∷◌, ◌++◌, ◌&&◌, not, ◌==◌, nat_eq, string_eq, leb,
  any, lookup, Dict, if◌then◌else◌,
}
use wcwcpp_backend.Base.Int.{to_int32, int_eq}
use wcwcpp_backend.Entity.{Uuid, GroupPick, GroupPickEntry, KnockoutPick, KnockoutPickEntry}
use wcwcpp_backend.Rows.{Db, GroupPickRow, KnockoutPickRow}
use wcwcpp_backend.Storage.Search.{get_country_code_to_id_map}
use wcwcpp_backend.Storage.Award.{standing_key, zero_row}
use wcwcpp_backend.Sql.{
  Action, Done, Error, Result, ok, err, quoted, driver, TxEnd, commit, no_commit, pure, or_fail,
  ◌>>=◌, ◌>>◌, write, exec, in_tx, insert_rows, delete_where, upsert,
}
use Prim.Native.String.{count}

-- What the server says to a row that breaks a constraint.
abbrev pub duplicate_key : Error
duplicate_key = driver "duplicate key value violates unique constraint"

abbrev pub missing_key : Error
missing_key = driver "violates foreign key constraint"

abbrev pub too_long : Error
too_long = driver "value too long for type character varying(1)"

-- The user, the contest and the country that a row refers to are there.
abbrev pub has_parents : Db → Uuid → Uuid → Uuid → Bool
has_parents db user contest country =
    any (λ u. u.id == user) db.users
    && any (λ c. c.id == contest) db.contests
    && any (λ c. c.id == country) db.countries

abbrev pub same_group_pick : GroupPickRow → GroupPickRow → Bool
same_group_pick p q =
    q.user_id == p.user_id && q.contest_id == p.contest_id && q.country_id == p.country_id

unfoldable pub group_pick_error : Db → GroupPickRow → List GroupPickRow → Option Error
group_pick_error db p rows =
    if not (leb (count p.letter) 1)
    then some too_long
    else if any (same_group_pick p) rows
    then some duplicate_key
    else if has_parents db p.user_id p.contest_id p.country_id
    then none
    else some missing_key

abbrev pub set_group_picks : Db → Result (List GroupPickRow) → Result (Done × Db)
set_group_picks db (ok rows) = ok (tt, record db { group_picks = rows })
set_group_picks db (err e) = err e

unfoldable pub insert_group_picks : List GroupPickRow → Db → Result (Done × Db)
unfolding group_pick_error
insert_group_picks rows db =
    set_group_picks db (insert_rows (group_pick_error db) rows db.group_picks)

-- Letters that occur, each once, in order: the loop that fills `letters`.
abbrev pub letters_from : List String → List GroupPick → List String
letters_from seen [] = []
letters_from seen (p ∷ ps) =
    let fresh = letters_from (p.letter ∷ seen) ps in
    let again = letters_from seen ps in
    if any (λ l. l == p.letter) seen then again else p.letter ∷ fresh

-- The rows of one group's entries, and of all groups.
unfoldable pub entry_rows :
    Dict String Uuid → Uuid → Uuid → GroupPick → List GroupPickEntry → Action (List GroupPickRow)
entry_rows codes user contest pick [] = pure []
entry_rows codes user contest pick (e ∷ es) = do
  country ← or_fail (lookup e.country.code codes) (quoted "country " e.country.code " not found")
  rest ← entry_rows codes user contest pick es
  pure (
      record {
        user_id = user;
        contest_id = contest;
        country_id = country;
        letter = pick.letter;
        place = to_int32 e.place;
        extra_qualifier = pick.extra_qualifier;
      }
      ∷ rest)

unfoldable pub pick_rows :
    Dict String Uuid → Uuid → Uuid → List GroupPick → Action (List GroupPickRow)
pick_rows codes user contest [] = pure []
pick_rows codes user contest (p ∷ ps) = do
  rows ← entry_rows codes user contest p p.entries
  rest ← pick_rows codes user contest ps
  pure (rows ++ rest)

abbrev pub in_letters : Uuid → Uuid → List String → GroupPickRow → Bool
in_letters user contest letters p =
    p.user_id == user && p.contest_id == contest && any (λ l. p.letter == l) letters

unfoldable pub delete_group_picks : Uuid → Uuid → List String → Db → Db
delete_group_picks user contest letters db = record db {
  group_picks = delete_where (in_letters user contest letters) db.group_picks;
}

-- `if len(letters) > 0 { … }`.
abbrev pub delete_letters : Uuid → Uuid → List String → Action Done
delete_letters user contest [] = pure tt
delete_letters user contest (l ∷ ls) = write (delete_group_picks user contest (l ∷ ls))

-- INSERT INTO contest_standings … ON CONFLICT DO NOTHING.
unfoldable pub enter_standings : Uuid → Uuid → Db → Db
enter_standings contest user db = record db {
  contest_standings =
      upsert (standing_key contest user) (λ r. r) (zero_row contest user) db.contest_standings;
}

-- `if !hasValues { return nil }`, before the commit.
unfoldable pub save_group_rows : Uuid → Uuid → List GroupPickRow → Action TxEnd
save_group_rows user contest [] = pure no_commit
save_group_rows user contest (r ∷ rs) = do
  exec (insert_group_picks (r ∷ rs))
  write (enter_standings contest user)
  pure commit

unfoldable pub group_pick_statements :
    Dict String Uuid → Uuid → Uuid → List GroupPick → Action TxEnd
group_pick_statements codes user contest picks = do
  delete_letters user contest (letters_from [] picks)
  rows ← pick_rows codes user contest picks
  save_group_rows user contest rows

unfoldable pub create_group_picks : Uuid → Uuid → List GroupPick → Action Done
create_group_picks user contest picks = do
  codes ← get_country_code_to_id_map
  in_tx (λ e. e) (λ e. e) (group_pick_statements codes user contest picks)

abbrev pub same_knockout_pick : KnockoutPickRow → KnockoutPickRow → Bool
same_knockout_pick p q =
    q.user_id == p.user_id
    && q.contest_id == p.contest_id
    && q.country_id == p.country_id
    && q.round == p.round

unfoldable pub knockout_pick_error : Db → KnockoutPickRow → List KnockoutPickRow → Option Error
knockout_pick_error db p rows =
    if any (same_knockout_pick p) rows
    then some duplicate_key
    else if has_parents db p.user_id p.contest_id p.country_id
    then none
    else some missing_key

abbrev pub set_knockout_picks : Db → Result (List KnockoutPickRow) → Result (Done × Db)
set_knockout_picks db (ok rows) = ok (tt, record db { knockout_picks = rows })
set_knockout_picks db (err e) = err e

unfoldable pub insert_knockout_picks : List KnockoutPickRow → Db → Result (Done × Db)
unfolding knockout_pick_error
insert_knockout_picks rows db =
    set_knockout_picks db (insert_rows (knockout_pick_error db) rows db.knockout_picks)

unfoldable pub knockout_rows :
    Dict String Uuid → Uuid → Uuid → List KnockoutPickEntry → Action (List KnockoutPickRow)
knockout_rows codes user contest [] = pure []
knockout_rows codes user contest (e ∷ es) = do
  country ← or_fail (lookup e.country.code codes) (quoted "country " e.country.code " not found")
  rest ← knockout_rows codes user contest es
  pure (
      record {
        user_id = user;
        contest_id = contest;
        country_id = country;
        round = to_int32 e.round;
      }
      ∷ rest)

abbrev pub own_knockout_pick : Uuid → Uuid → KnockoutPickRow → Bool
own_knockout_pick user contest p = p.user_id == user && p.contest_id == contest

unfoldable pub delete_knockout_picks : Uuid → Uuid → Db → Db
delete_knockout_picks user contest db = record db {
  knockout_picks = delete_where (own_knockout_pick user contest) db.knockout_picks;
}

unfoldable pub save_knockout_rows : Uuid → Uuid → List KnockoutPickRow → Action TxEnd
save_knockout_rows user contest [] = pure no_commit
save_knockout_rows user contest (r ∷ rs) = do
  exec (insert_knockout_picks (r ∷ rs))
  write (enter_standings contest user)
  pure commit

unfoldable pub knockout_pick_statements :
    Dict String Uuid → Uuid → Uuid → KnockoutPick → Action TxEnd
knockout_pick_statements codes user contest pick = do
  write (delete_knockout_picks user contest)
  rows ← knockout_rows codes user contest pick.entries
  save_knockout_rows user contest rows

unfoldable pub create_knockout_picks : Uuid → Uuid → KnockoutPick → Action Done
create_knockout_picks user contest pick = do
  codes ← get_country_code_to_id_map
  in_tx (λ e. e) (λ e. e) (knockout_pick_statements codes user contest pick)
