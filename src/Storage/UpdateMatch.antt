-- ===== src/Storage/UpdateMatch.antt =====
-- `UpdateMatch` of adapters/storage/postgres/contest.go.
pub mod Atomic
pub mod Completed
pub mod Sound
use wcwcpp_backend.Base.{Bool, Option, none, some, ◌==◌, nat_eq, if◌then◌else◌}
use wcwcpp_backend.Entity.{Uuid, Match}
use wcwcpp_backend.Rows.{Db, MatchRow}
use wcwcpp_backend.Sql.{
  Action, World, Result, ok, err, Error, message, wrap, Done, TxEnd, commit, no_commit, pure,
  fail_if, ◌>>=◌, ◌>>◌, write, on_error, in_tx, update_where,
}
use wcwcpp_backend.Storage.Search.{get_country_code_to_id_map, resolve}
use wcwcpp_backend.Storage.Existing.{find_existing, is_completed, merge_match, has_updates}
use wcwcpp_backend.Storage.Standings.{update_standings}
use wcwcpp_backend.Storage.Knockout.{decide_knockout}

-- The columns that the update of a match sets.
abbrev pub set_match : MatchRow → MatchRow → MatchRow
set_match new m = record m {
  country1_id = new.country1_id;
  country2_id = new.country2_id;
  country1_goals = new.country1_goals;
  country2_goals = new.country2_goals;
  country1_penalties = new.country1_penalties;
  country2_penalties = new.country2_penalties;
  country1_conduct_score = new.country1_conduct_score;
  country2_conduct_score = new.country2_conduct_score;
}

unfoldable pub save_match : MatchRow → Db → Db
save_match new db = record db {
  matches = update_where (λ m. m.id == new.id) (set_match new) db.matches;
}

-- The statements of the transaction.
unfoldable pub match_effects : Bool → MatchRow → MatchRow → Action TxEnd
match_effects knockout old new = do
  on_error (wrap "failed to update match") (write (save_match new))
  if knockout then decide_knockout old new else update_standings old new
  pure commit

-- From the guard on completed matches on.
unfoldable pub apply_update : Match → Option Uuid → Option Uuid → MatchRow × Bool → Action Done
apply_update m c1 c2 (old, knockout) = do
  fail_if (is_completed old)
      (message "match has already been completed and cannot be updated again")
  if has_updates knockout c1 c2 m
      then in_tx (wrap "failed to begin transaction") (wrap "failed to commit transaction")
          (match_effects knockout old (merge_match knockout c1 c2 m old))
      else pure tt

unfoldable pub update_match : Uuid → Match → Action Done
unfolding apply_update
update_match contest m = do
  codes ← get_country_code_to_id_map
  let c1 = resolve codes m.country1
  let c2 = resolve codes m.country2
  existing ← find_existing contest m c1 c2
  apply_update m c1 c2 existing
