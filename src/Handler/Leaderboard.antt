-- ===== src/Handler/Leaderboard.antt =====
-- `LeaderboardHandler` of adapters/handler/leaderboard.go.
use wcwcpp_backend.Base.{String, Option, none, some, List, [], ◌∷◌, map, Dict, lookup, string_eq}
use wcwcpp_backend.Base.Int.{ℤ}
use wcwcpp_backend.Entity.{Uuid, LeaderboardEntry}
use wcwcpp_backend.Sql.{Error}
use wcwcpp_backend.Handler.{
  Handler, Answer, serve, refused, not_found, permission_denied, says, by_tests,
}
use wcwcpp_backend.Handler.Messages.{PbLeaderboardEntry, PbLeaderboard}
use wcwcpp_backend.Handler.Interceptor.{Env, Parse, with_public, with_auth, with_user}
use wcwcpp_backend.Ports.{LeaderboardRepository}
use wcwcpp_backend.Service.Leaderboard as Service

-- `leaderboard[key]`: the empty slice for a missing key.
abbrev pub entries_or_none : Option (List LeaderboardEntry) → List LeaderboardEntry
entries_or_none none = []
entries_or_none (some es) = es

abbrev pub entry_to_proto : LeaderboardEntry → PbLeaderboardEntry
entry_to_proto l = record { name = l.name; score = l.score }

abbrev pub board_to_proto : Dict String (List LeaderboardEntry) → String → List PbLeaderboardEntry
board_to_proto boards key = map entry_to_proto (entries_or_none (lookup key boards))

unfoldable pub leaderboard_response : Dict String (List LeaderboardEntry) → PbLeaderboard
leaderboard_response boards = record {
  group = board_to_proto boards "group";
  knockout = board_to_proto boards "knockout";
  overall = board_to_proto boards "overall";
}

unfoldable pub refuse_leaderboard : Error → Answer PbLeaderboard
refuse_leaderboard e = by_tests e ((says e "contest not found", refused not_found (some e)) ∷ [])

unfoldable pub refuse_subleaderboard : Error → Answer PbLeaderboard
refuse_subleaderboard e = by_tests e (
    (says e "permission denied: no access to subcontest", refused permission_denied (some e))
    ∷ (says e "subcontest not found", refused not_found (some e))
    ∷ [])

module _ (env : Env) (parse : Parse) (repo : LeaderboardRepository) where
  unfoldable pub leaderboard : String → ℤ → ℤ → Handler PbLeaderboard
  leaderboard slug limit offset = with_public (λ ctx.
      serve (Service.leaderboard repo slug limit offset) leaderboard_response refuse_leaderboard)

  unfoldable pub subleaderboard : (String → Uuid) → String → ℤ → ℤ → String → Handler PbLeaderboard
  subleaderboard read_uuid slug limit offset = with_auth env parse (
      with_user read_uuid (λ user.
        serve (Service.subleaderboard repo user slug limit offset) leaderboard_response
          refuse_subleaderboard))
