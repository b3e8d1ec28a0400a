-- ===== src/Storage/Award.antt =====
-- The statement that gives points to a user: the insert into `contest_standings` that
-- adapters/storage/postgres/contest.go makes in `UpdateMatch`, `FinalizeGroupRankings` and
-- `FinalizeThirdPlaceQualifier`, and the insert of a zero row in picks.go.
-- The columns are `INT`: the server refuses a sum that does not fit.
pub mod Total
pub mod Elsewhere
use wcwcpp_backend.Base.{
  Bool, true, false, not, Option, none, some, List, [], ◌∷◌, ◌&&◌, ◌==◌, nat_eq, any, select, first,
  if◌then◌else◌,
}
use wcwcpp_backend.Base.Int.{ℤ, pos, ◌+ℤ◌, fits_int32}
use wcwcpp_backend.Entity.{Uuid}
use wcwcpp_backend.Rows.{Db, ContestStandingRow}
use wcwcpp_backend.Sql.{
  Result, ok, err, Error, driver, wrap, Action, Done, World, ◌>>=◌, ◌>>◌, pure, exec, on_error,
  upsert,
}

-- The column that a statement adds to.
pub data Stage : Type 0 where
  group_stage knockout_stage : Stage

abbrev pub score : Stage → ContestStandingRow → ℤ
score Stage.group_stage r = r.group_score
score Stage.knockout_stage r = r.knockout_score

abbrev pub with_score : Stage → ℤ → ContestStandingRow → ContestStandingRow
with_score Stage.group_stage x r = record r { group_score = x }
with_score Stage.knockout_stage x r = record r { knockout_score = x }

abbrev pub standing_key : Uuid → Uuid → ContestStandingRow → Bool
standing_key contest user r = r.contest_id == contest && r.user_id == user

-- The other column takes its default.
abbrev pub zero_row : Uuid → Uuid → ContestStandingRow
zero_row contest user = record {
  contest_id = contest;
  user_id = user;
  group_score = pos 0;
  knockout_score = pos 0;
}

abbrev pub add_points : Stage → ℤ → ContestStandingRow → ContestStandingRow
add_points st points r = with_score st (score st r +ℤ points) r

abbrev pub overflows : Stage → Uuid → Uuid → ℤ → ContestStandingRow → Bool
overflows st contest user points r =
    standing_key contest user r && not (fits_int32 (score st r +ℤ points))

-- The table after the statement.
unfoldable pub paid : Stage → Uuid → Uuid → ℤ → Db → Db
paid st contest user points db = record db {
  contest_standings =
      upsert (standing_key contest user) (add_points st points)
        (with_score st points (zero_row contest user)) db.contest_standings;
}

abbrev pub is_refused : Stage → Uuid → Uuid → ℤ → Db → Bool
is_refused st contest user points db = any (overflows st contest user points) db.contest_standings

unfoldable pub award : Stage → Uuid → Uuid → ℤ → Db → Result (Done × Db)
unfolding paid
award st contest user points db =
    if is_refused st contest user points db
    then err (driver "integer out of range")
    else ok (tt, paid st contest user points db)

-- The loop over the users who get the same points.
unfoldable pub award_all : (Error → Error) → Stage → Uuid → ℤ → List Uuid → Action Done
award_all f st contest points [] = pure tt
award_all f st contest points (u ∷ us) =
    on_error f (exec (award st contest u points)) >> award_all f st contest points us
