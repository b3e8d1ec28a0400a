-- ===== src/Storage/Leaderboard.antt =====
-- `LeaderboardRepository` of adapters/storage/postgres/leaderboard.go.
pub mod Ranked
pub mod Access
use wcwcpp_backend.Base.{
  ℕ, String, Bool, true, false, not, Option, none, some, List, [], ◌∷◌, ◌++◌, map, ◌&&◌, ◌||◌, ◌==◌,
  nat_eq, string_eq, select, any, Dict, if◌then◌else◌,
}
use wcwcpp_backend.Base.Int.{ℤ, pos, ◌+ℤ◌, leb_ℤ, fits_int32}
use wcwcpp_backend.Entity.{Uuid, LeaderboardEntry}
use wcwcpp_backend.Rows.{Db, UserRow, ContestStandingRow, SubcontestRow, SubcontestEntryRow}
use wcwcpp_backend.Sql.{
  Action, World, Result, ok, err, Error, message, no_rows, driver, with_db, pure, fail, exec,
  query_one, ◌>>=◌,
}
use wcwcpp_backend.Sql.Order.{order_by, page}

-- The score that a leaderboard shows.
pub data Board : Type 0 where
  group knockout overall : Board

abbrev pub board_score : Board → ContestStandingRow → ℤ
board_score Board.group r = r.group_score
board_score Board.knockout r = r.knockout_score
board_score Board.overall r = r.group_score +ℤ r.knockout_score

-- ORDER BY the score, descending.
abbrev pub ranks_before : LeaderboardEntry → LeaderboardEntry → Bool
ranks_before a b = leb_ℤ b.score a.score

-- The names of the users with an identifier, with a score.
abbrev pub named : List UserRow → Uuid → ℤ → List LeaderboardEntry
named users user points =
    map (λ u. record { name = u.username; score = points }) (select (λ u. u.id == user) users)

-- The inner join of standings and users.
abbrev pub entries_of : Board → List UserRow → List ContestStandingRow → List LeaderboardEntry
entries_of b users [] = []
entries_of b users (r ∷ rs) = named users r.user_id (board_score b r) ++ entries_of b users rs

abbrev pub of_contest : Uuid → Db → List ContestStandingRow
of_contest contest db = select (λ r. r.contest_id == contest) db.contest_standings

-- The server adds INT columns as INT, and refuses a sum that does not fit.
abbrev pub sum_fits : List LeaderboardEntry → Bool
sum_fits entries = not (any (λ e. not (fits_int32 e.score)) entries)

abbrev pub checked :
    List LeaderboardEntry → Result (List LeaderboardEntry) → Result (List LeaderboardEntry)
checked entries r = if sum_fits entries then r else err (driver "integer out of range")

unfoldable pub contest_entries : Board → Uuid → Db → List LeaderboardEntry
contest_entries b contest db = entries_of b db.users (of_contest contest db)

-- One of the three queries of `Leaderboard`, with its mapping to entries.
unfoldable pub board :
    Option Error → (Db → List LeaderboardEntry) → ℤ → ℤ → Action (List LeaderboardEntry)
board bad_offset entries limit offset = exec (λ db.
    with_db db
      (checked (entries db) (page bad_offset limit offset (order_by ranks_before (entries db)))))

unfoldable pub leaderboard :
    Option Error → Uuid → ℤ → ℤ → Action (Dict String (List LeaderboardEntry))
leaderboard bad_offset contest limit offset = do
  groups ← board bad_offset (contest_entries Board.group contest) limit offset
  knockouts ← board bad_offset (contest_entries Board.knockout contest) limit offset
  overalls ← board bad_offset (contest_entries Board.overall contest) limit offset
  pure (("group", groups) ∷ ("knockout", knockouts) ∷ ("overall", overalls) ∷ [])

-- The standings of a user in a contest.
abbrev pub standing_of : Uuid → Uuid → ContestStandingRow → Bool
standing_of contest user r = r.user_id == user && r.contest_id == contest

-- The left join with the standings, and COALESCE: 0 for a member without a standing.
abbrev pub scores_or_zero : Board → List ContestStandingRow → List ℤ
scores_or_zero b [] = pos 0 ∷ []
scores_or_zero b (r ∷ rs) = map (board_score b) (r ∷ rs)

abbrev pub each_score : List UserRow → Uuid → List ℤ → List LeaderboardEntry
each_score users user [] = []
each_score users user (x ∷ xs) = named users user x ++ each_score users user xs

abbrev pub member_scores : Board → Db → Uuid → List SubcontestRow → List LeaderboardEntry
member_scores b db user [] = []
member_scores b db user (s ∷ ss) =
    each_score db.users user
      (scores_or_zero b (select (standing_of s.contest_id user) db.contest_standings))
    ++ member_scores b db user ss

abbrev pub members : Board → Db → List SubcontestEntryRow → List LeaderboardEntry
members b db [] = []
members b db (e ∷ es) =
    member_scores b db e.user_id (select (λ s. s.id == e.subcontest_id) db.subcontests)
    ++ members b db es

unfoldable pub subcontest_members : Board → Uuid → Db → List LeaderboardEntry
subcontest_members b sub db =
    members b db (select (λ e. e.subcontest_id == sub) db.subcontest_entries)

unfoldable pub subleaderboard :
    Option Error → Uuid → ℤ → ℤ → Action (Dict String (List LeaderboardEntry))
subleaderboard bad_offset sub limit offset = do
  groups ← board bad_offset (subcontest_members Board.group sub) limit offset
  knockouts ← board bad_offset (subcontest_members Board.knockout sub) limit offset
  overalls ← board bad_offset (subcontest_members Board.overall sub) limit offset
  pure (("group", groups) ∷ ("knockout", knockouts) ∷ ("overall", overalls) ∷ [])

-- What a missing row becomes.
abbrev pub or_when_absent : {A : Type 0} → Action A → Action A → Action A
or_when_absent missing m w =
    let (r, w') = m w in
    elim r [ ok a ↦ (ok a, w') | err e ↦ (elim e [ no_rows ↦ missing w' | x ↦ (err x, w') ]) ]

abbrev pub entry_rows_of : Uuid → Uuid → Db → List SubcontestEntryRow
entry_rows_of sub user db =
    select (λ e. e.subcontest_id == sub && e.user_id == user) db.subcontest_entries

abbrev pub is_member : Uuid → SubcontestRow → Action Bool
is_member user s =
    or_when_absent (pure false) (do row ← query_one (entry_rows_of s.id user); pure true)

unfoldable pub has_subcontest_access : Uuid → String → Action Bool
has_subcontest_access user slug = do
  s ←
      or_when_absent (fail (message "subcontest not found"))
        (query_one (λ db. select (λ s. s.slug == slug) db.subcontests))
  if s.user_id == user then pure true else is_member user s
