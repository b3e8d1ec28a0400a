-- ===== src/Service/Contest/Generated.antt =====
-- The matches that `CreateContest` makes.
use wcwcpp_backend.Base.{
  ℕ, ◌+◌, ◌*◌, ◌≡◌, ◌≢◌, List, length, arith, String, string_eq, nat_eq, if◌then◌else◌, ltb,
}
use wcwcpp_backend.Base.Int.{int_eq}
use wcwcpp_backend.Entity.{Group}
use wcwcpp_backend.Service.Contest.{group_matches, knockout_matches, generated_matches}
use wcwcpp_backend.Service.Contest.Counting.{
  count, count-append, pairings, length-generated_matches,
}
use wcwcpp_backend.Service.Contest.Meetings.{
  is_meeting, meetings, count-group_matches, knockout-meetings,
}
use wcwcpp_backend.Service.Contest.Slots.{is_slot, slots, group-slots, knockout-slots}

-- Of the matches that a contest is made with, those of round 0 without an index between two
-- countries of different codes are as many as there are pairings of the two in the groups: one when
-- both are once in the same group, none when they share no group. Without countries there is one
-- match at each index below 16, 8, 4, 2 and 2 of the rounds 1 to 5, and none elsewhere. There are no
-- others: there are n * (n - 1) / 2 for each group of n, and 32.
pub generated_matches-once :
    (gs : List Group) (x y : String) (round i : ℕ)
    → x ≢ y
    → (count (is_meeting x y) (generated_matches gs) ≡ meetings x y gs)
      × (count (is_slot round i) (generated_matches gs) ≡ (if ltb i (slots round) then 1 else 0))
      × (2 * length (generated_matches gs) ≡ pairings gs + 2 * 32)
unfolding generated_matches
generated_matches-once gs x y round i ne = (
  ground (
    arith,
    count-append (is_meeting x y) (group_matches gs) knockout_matches,
    count-group_matches x y gs ne,
    knockout-meetings x y,
  ),
  ground (
    arith,
    count-append (is_slot round i) (group_matches gs) knockout_matches,
    group-slots round i gs,
    knockout-slots round i,
  ),
  length-generated_matches gs,
)
