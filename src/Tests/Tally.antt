-- ===== src/Tests/Tally.antt =====
-- The group table after a match.
use wcwcpp_backend.Base.{refl, arith, some, none, [], ◌∷◌}
use wcwcpp_backend.Base.Int.{pos, to_int32, add32, ◌+ℤ◌}
use wcwcpp_backend.Rows.{MatchRow}
use wcwcpp_backend.Sql.{World}
use wcwcpp_backend.Storage.Tally.{share, total}
use wcwcpp_backend.Storage.Tally.Rows.{IsShaped}
use wcwcpp_backend.Storage.Tally.Knockout.{IsKept}
use wcwcpp_backend.Storage.Tally.Update.{update_match-IsKept}
use wcwcpp_backend.Storage.UpdateMatch.{update_match}
use wcwcpp_backend.Tests.Data.{contest, db, match_row, group_result}

abbrev open_match : MatchRow
open_match = match_row 101 (pos 0) none (some 13) (some 14)

abbrev slot : MatchRow
slot = match_row 202 (pos 1) (some (pos 1)) none none

abbrev pub start : World
start = record { db = record db { matches = open_match ∷ slot ∷ [] }; faults = [] }

open_match-IsShaped : IsShaped open_match
open_match-IsShaped group = (refl, λ c a b. ground (arith, a, b))

slot-IsShaped : IsShaped slot
slot-IsShaped group = absurd (ground (arith, group))

pub start-IsKept : IsKept start.db
unfolding total share add32 to_int32 ◌+ℤ◌
start-IsKept = (
  ((λ e. omega (arith, e), tt), (tt, tt)),
  (open_match-IsShaped, (slot-IsShaped, tt)),
  (refl, (refl, (refl, (refl, tt)))),
)

update_match-IsKept_example : IsKept (update_match contest group_result start).1.db
update_match-IsKept_example = update_match-IsKept contest group_result start start-IsKept
