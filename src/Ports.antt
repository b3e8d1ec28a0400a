-- ===== src/Ports.antt =====
-- The repositories that the services take: the interfaces of ports/repositories.go, each with the
-- methods of `Search`. A method that writes its result into its argument returns it.
use wcwcpp_backend.Base.{ℕ, String, Bool, Option, List, Dict}
use wcwcpp_backend.Base.Int.{ℤ}
use wcwcpp_backend.Entity.{
  Uuid, Contest, Subcontest, Country, Group, Match, GroupPick, GroupStanding, KnockoutPick,
  LeaderboardEntry, User,
}
use wcwcpp_backend.Sql.{Action, Done, Result}

pub record TokenValidator : Type 0 where
  pub validate_google_token : String → Result String

pub record ContestRepository : Type 0 where
  pub list_contests : Action (List Contest)
  pub create_contest : Contest → Action Uuid
  pub create_countries : List Country → Action Done
  pub create_matches : Uuid → List Match → Action Done
  pub create_group_standings : Uuid → List Group → Action Done
  pub create_subcontest : Subcontest → Action Uuid
  pub join_subcontest : Uuid → Uuid → Action Done
  pub get_subcontest_by_join_code : String → Action (Option Subcontest)
  pub list_subcontests : Uuid → Uuid → Action (List Subcontest)
  pub delete_subcontest : Uuid → Action Done
  pub list_group_matches : Uuid → String → Action (List Match)
  pub list_knockout_matches : Uuid → Action (List Match)
  pub update_match : Uuid → Match → Action Done
  pub finalize_group_rankings : Uuid → String → List String → Action Done
  pub finalize_third_place_qualifier : Uuid → String → Bool → Action Done
  pub get_contest_by_slug : String → Action (Option Contest)
  pub get_subcontest_by_slug : String → Action (Option Subcontest)
  pub get_country_code_to_id_map : Action (Dict String Uuid)

pub record UserRepository : Type 0 where
  pub find_by_email : String → Action (Option User)
  pub create_user : String → String → Action User
  pub count_users : Action ℕ
  pub delete_user : Uuid → Action Done

pub record LeaderboardRepository : Type 0 where
  pub leaderboard : Uuid → ℤ → ℤ → Action (Dict String (List LeaderboardEntry))
  pub subleaderboard : Uuid → ℤ → ℤ → Action (Dict String (List LeaderboardEntry))
  pub has_subcontest_access : Uuid → String → Action Bool
  pub get_contest_by_slug : String → Action (Option Contest)
  pub get_subcontest_by_slug : String → Action (Option Subcontest)
  pub get_country_code_to_id_map : Action (Dict String Uuid)

pub record PicksRepository : Type 0 where
  pub list_group_picks : Uuid → Uuid → Action (List GroupPick)
  pub list_group_standings : Uuid → Action (List GroupStanding)
  pub create_group_picks : Uuid → Uuid → List GroupPick → Action Done
  pub list_knockout_picks : Uuid → Uuid → Action KnockoutPick
  pub list_knockout_results : Uuid → Action KnockoutPick
  pub create_knockout_picks : Uuid → Uuid → KnockoutPick → Action Done
  pub get_contest_by_slug : String → Action (Option Contest)
  pub get_subcontest_by_slug : String → Action (Option Subcontest)
  pub get_country_code_to_id_map : Action (Dict String Uuid)
