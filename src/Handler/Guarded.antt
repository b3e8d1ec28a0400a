-- ===== src/Handler/Guarded.antt =====
-- Which endpoints are for whom.
use wcwcpp_backend.Base.{ℕ, String, Bool, Option, List}
use wcwcpp_backend.Base.Int.{ℤ}
use wcwcpp_backend.Entity.{Uuid, Time}
use wcwcpp_backend.Sql.{Result}
use wcwcpp_backend.Ports.{ContestRepository, UserRepository, PicksRepository, LeaderboardRepository}
use wcwcpp_backend.Handler.Messages.{PbMatch, PbContestRequest, PbGroupPick, PbKnockoutPick}
use wcwcpp_backend.Handler.Interceptor.{Env, Parse}
use wcwcpp_backend.Handler.Interceptor.Genuine.{
  ForSuperadmins, ForUsers, with_auth-ForUsers, with_superadmin-ForSuperadmins,
}
use wcwcpp_backend.Handler.Contest as Contest
use wcwcpp_backend.Handler.Match as Match
use wcwcpp_backend.Handler.Picks as Picks
use wcwcpp_backend.Handler.Users as Users
use wcwcpp_backend.Handler.Leaderboard as Leaderboard

-- CreateContest, FinalizeGroupRankings, FinalizeThirdPlaceQualifier and CreateMatch are for
-- superadmins: unless the header passes and its address is a superadmin's, the answer is
-- unauthenticated or permission denied, and the service is not called: the database and the answers
-- to come of the server are as before.
pub management-ForSuperadmins :
    (env : Env) (parse : Parse) (repo : ContestRepository) (make_slug : String → String)
    (contest : PbContestRequest) (slug letter : String) (codes : List String) (qualifies : Bool)
    (m : Option PbMatch)
    → ForSuperadmins env parse (Contest.create_contest env parse repo make_slug contest)
      × ForSuperadmins env parse (Contest.finalize_group_rankings env parse repo slug letter codes)
      × ForSuperadmins env parse
          (Contest.finalize_third_place_qualifier env parse repo slug letter qualifies)
      × ForSuperadmins env parse (Match.create_match env parse repo slug m)
unfolding Contest.create_contest Contest.finalize_group_rankings
    Contest.finalize_third_place_qualifier Match.create_match
management-ForSuperadmins env parse repo make_slug contest slug letter codes qualifies m = (
  with_superadmin-ForSuperadmins env parse _,
  with_superadmin-ForSuperadmins env parse _,
  with_superadmin-ForSuperadmins env parse _,
  with_superadmin-ForSuperadmins env parse _,
)

-- Picks, subcontests, subcontest leaderboards and the deletion of an account are for users: unless
-- the header passes, the answer is unauthenticated, and the service is not called.
pub accounts-ForUsers :
    (env : Env) (parse : Parse) (read_uuid : String → Uuid) (contests : ContestRepository)
    (picks : PicksRepository) (users : UserRepository) (boards : LeaderboardRepository)
    (make_slug : String → String) (random : Result (List ℕ)) (now : Time) (slug title : String)
    (self_join : Bool) (group : List PbGroupPick) (knockout : Option PbKnockoutPick)
    (limit offset : ℤ)
    → ForUsers env parse (Contest.list_subcontests env parse contests read_uuid slug)
      × ForUsers env parse (
          Contest.create_subcontest env parse contests read_uuid make_slug random slug title
            self_join)
      × ForUsers env parse (Contest.delete_subcontest env parse contests read_uuid slug)
      × ForUsers env parse (Contest.join_subcontest env parse contests read_uuid slug)
      × ForUsers env parse (Picks.list_group_picks env parse read_uuid picks slug)
      × ForUsers env parse (Picks.create_group_picks env parse read_uuid picks now slug group)
      × ForUsers env parse (Picks.list_knockout_picks env parse read_uuid picks slug)
      × ForUsers env parse (Picks.create_knockout_picks env parse read_uuid picks now slug knockout)
      × ForUsers env parse (Users.delete_user env parse users read_uuid)
      × ForUsers env parse (Leaderboard.subleaderboard env parse boards read_uuid slug limit offset)
unfolding Contest.list_subcontests Contest.create_subcontest Contest.delete_subcontest
    Contest.join_subcontest Picks.list_group_picks Picks.create_group_picks
    Picks.list_knockout_picks Picks.create_knockout_picks Users.delete_user
    Leaderboard.subleaderboard
accounts-ForUsers env parse read_uuid contests picks users boards make_slug random now slug title
      self_join group knockout limit offset =
    (
      with_auth-ForUsers env parse _,
      with_auth-ForUsers env parse _,
      with_auth-ForUsers env parse _,
      with_auth-ForUsers env parse _,
      with_auth-ForUsers env parse _,
      with_auth-ForUsers env parse _,
      with_auth-ForUsers env parse _,
      with_auth-ForUsers env parse _,
      with_auth-ForUsers env parse _,
      with_auth-ForUsers env parse _,
    )
