-- ===== src/Storage/Existing.antt =====
-- The first half of `UpdateMatch` of adapters/storage/postgres/contest.go: finding the match, the
-- guard on completed matches, and the merge of the provided fields. No transaction is open yet.
use wcwcpp_backend.Base.{
  Bool, true, false, Option, none, some, ◌&&◌, ◌||◌, ◌==◌, nat_eq, select, if◌then◌else◌,
}
use wcwcpp_backend.Base.Int.{ℤ, pos, to_int32, ltb_ℤ, int_eq}
use wcwcpp_backend.Entity.{Uuid, Match}
use wcwcpp_backend.Rows.{MatchRow}
use wcwcpp_backend.Sql.{Action, message, wrap, pure, fail, ◌>>=◌, query_one, on_error}

-- A comparison of a nullable column with a value: NULL passes no test.
abbrev pub is_id : Option Uuid → Uuid → Bool
is_id none a = false
is_id (some b) a = b == a

abbrev pub is_int : Option ℤ → ℤ → Bool
is_int none a = false
is_int (some b) a = b == a

abbrev pub is_some : {A : Type 0} → Option A → Bool
is_some none = false
is_some (some a) = true

abbrev pub at_slot : Uuid → ℤ → ℤ → MatchRow → Bool
at_slot contest round index m =
    m.contest_id == contest && m.round == round && is_int m.round_index index

abbrev pub is_pair : Uuid → ℤ → Uuid → Uuid → MatchRow → Bool
is_pair contest round a b m =
    m.contest_id == contest
    && m.round == round
    && ((is_id m.country1_id a && is_id m.country2_id b)
        || (is_id m.country1_id b && is_id m.country2_id a))

-- The lookup by round and index: a knockout match.
unfoldable pub find_by_slot : Uuid → ℤ → ℤ → Action (MatchRow × Bool)
find_by_slot contest round index = do
  m ←
      on_error (wrap "failed to find knockout match by round/index")
        (query_one (λ db. select (at_slot contest (to_int32 round) (to_int32 index)) db.matches))
  pure (m, true)

-- The lookup by the two countries, in either order.
unfoldable pub find_by_countries : Uuid → ℤ → Option Uuid → Option Uuid → Action (MatchRow × Bool)
find_by_countries contest round (some a) (some b) = do
  m ←
      on_error (wrap "failed to find match by countries")
        (query_one (λ db. select (is_pair contest (to_int32 round) a b) db.matches))
  pure (m, ltb_ℤ (pos 0) m.round)
find_by_countries contest round none c2 =
    fail (message "match must have both countries defined to update by countries")
find_by_countries contest round (some a) none =
    fail (message "match must have both countries defined to update by countries")

-- `if match.Round > 0 && match.RoundIndex != nil`.
abbrev pub find_by : Uuid → ℤ → Option ℤ → Option Uuid → Option Uuid → Action (MatchRow × Bool)
find_by contest round none c1 c2 = find_by_countries contest round c1 c2
find_by contest round (some index) c1 c2 =
    if ltb_ℤ (pos 0) round
    then find_by_slot contest round index
    else find_by_countries contest round c1 c2

unfoldable pub find_existing : Uuid → Match → Option Uuid → Option Uuid → Action (MatchRow × Bool)
unfolding find_by_slot find_by_countries
find_existing contest m c1 c2 = find_by contest m.round m.round_index c1 c2

unfoldable pub is_completed : MatchRow → Bool
is_completed m = is_some m.country1_goals && is_some m.country2_goals

-- `if new != nil { field = new }`, where numbers are converted to int32.
abbrev pub or_keep : {A : Type 0} → Option A → Option A → Option A
or_keep none old = old
or_keep (some new) old = some new

abbrev pub or_keep32 : Option ℤ → Option ℤ → Option ℤ
or_keep32 none old = old
or_keep32 (some new) old = some (to_int32 new)

-- The record that will be written: `updateModel`.
unfoldable pub merge_match : Bool → Option Uuid → Option Uuid → Match → MatchRow → MatchRow
merge_match knockout c1 c2 m e = record e {
  country1_id = if knockout then or_keep c1 e.country1_id else e.country1_id;
  country2_id = if knockout then or_keep c2 e.country2_id else e.country2_id;
  country1_goals = or_keep32 m.country1_goals e.country1_goals;
  country2_goals = or_keep32 m.country2_goals e.country2_goals;
  country1_penalties =
      if knockout
      then or_keep32 m.country1_penalties e.country1_penalties
      else e.country1_penalties;
  country2_penalties =
      if knockout
      then or_keep32 m.country2_penalties e.country2_penalties
      else e.country2_penalties;
  country1_conduct_score = or_keep32 m.country1_conduct_score e.country1_conduct_score;
  country2_conduct_score = or_keep32 m.country2_conduct_score e.country2_conduct_score;
}

unfoldable pub has_updates : Bool → Option Uuid → Option Uuid → Match → Bool
has_updates knockout c1 c2 m =
    (knockout && (is_some c1 || is_some c2))
    || is_some m.country1_goals
    || is_some m.country2_goals
    || is_some m.country1_conduct_score
    || is_some m.country2_conduct_score
    || (knockout && (is_some m.country1_penalties || is_some m.country2_penalties))
