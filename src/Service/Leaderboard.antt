-- ===== src/Service/Leaderboard.antt =====
-- `LeaderboardService` of core/service/leaderboard.go.
pub mod Access
use wcwcpp_backend.Base.{String, not, List, Dict}
use wcwcpp_backend.Base.Int.{ℤ}
use wcwcpp_backend.Entity.{Uuid, LeaderboardEntry}
use wcwcpp_backend.Sql.{Action, message, fail_if, or_fail, ◌>>=◌, ◌>>◌}
use wcwcpp_backend.Ports.{LeaderboardRepository}
use wcwcpp_backend.Service.Picks.{the_contest}

module _ (repo : LeaderboardRepository) where
  unfoldable pub leaderboard : String → ℤ → ℤ → Action (Dict String (List LeaderboardEntry))
  leaderboard slug limit offset = do
    contest ← the_contest (repo.get_contest_by_slug slug)
    repo.leaderboard contest.id limit offset

  unfoldable pub subleaderboard :
      Uuid → String → ℤ → ℤ → Action (Dict String (List LeaderboardEntry))
  subleaderboard user slug limit offset = do
    has_access ← repo.has_subcontest_access user slug
    fail_if (not has_access) (message "permission denied: no access to subcontest")
    found ← repo.get_subcontest_by_slug slug
    sub ← or_fail found (message "subcontest not found")
    repo.subleaderboard sub.id limit offset
