-- ===== src/Handler/Messages.antt =====
-- The messages of api/v1/*.proto that the handlers read and write, as the generated code has them:
-- a message in a field is a pointer, which may be nil, and a field that is `optional` is one too.
use wcwcpp_backend.Base.{String, Bool, Option, List}
use wcwcpp_backend.Base.Int.{ℤ}
use wcwcpp_backend.Entity.{Uuid, Time}

pub record PbUser : Type 0 where
  pub id : Uuid
  pub email : String
  pub username : String

pub record PbCountry : Type 0 where
  pub code : String
  pub full_name : String

pub record PbContest : Type 0 where
  pub title : String
  pub slug : String
  pub group_unlock_date : Option Time
  pub group_lock_date : Option Time
  pub knockout_unlock_date : Option Time
  pub knockout_lock_date : Option Time

pub record PbSubcontest : Type 0 where
  pub title : String
  pub slug : String
  pub is_owner : Bool
  pub is_member : Bool
  pub join_code : String

pub record PbRankedCountry : Type 0 where
  pub code : String
  pub full_name : String
  pub points : ℤ
  pub wins : ℤ
  pub draws : ℤ
  pub losses : ℤ
  pub goals_for : ℤ
  pub goals_against : ℤ
  pub goal_difference : ℤ
  pub conduct_score : ℤ
  pub is_third_place_qualifier : Bool
  pub rank : Option ℤ

pub record PbGroup : Type 0 where
  pub letter : String
  pub countries : List PbCountry

pub record PbRankedGroup : Type 0 where
  pub letter : String
  pub ranked_countries : List PbRankedCountry
  pub extra_qualifier : Option Bool
  pub finalized : Bool
  pub extra_qualifier_finalized : Bool

pub record PbGroupPick : Type 0 where
  pub group : Option PbGroup
  pub extra_qualifier : Bool

pub record PbKnockoutEntry : Type 0 where
  pub country : Option PbCountry
  pub round : ℤ

pub record PbKnockoutPick : Type 0 where
  pub entries : List PbKnockoutEntry

pub record PbMatch : Type 0 where
  pub country1 : Option PbCountry
  pub country2 : Option PbCountry
  pub country1_goals : Option ℤ
  pub country2_goals : Option ℤ
  pub country1_penalties : Option ℤ
  pub country2_penalties : Option ℤ
  pub round : ℤ
  pub round_index : Option ℤ
  pub country1_conduct_score : Option ℤ
  pub country2_conduct_score : Option ℤ

pub record PbLeaderboardEntry : Type 0 where
  pub name : String
  pub score : ℤ

pub record PbLeaderboard : Type 0 where
  pub group : List PbLeaderboardEntry
  pub knockout : List PbLeaderboardEntry
  pub overall : List PbLeaderboardEntry

pub record PbContestRequest : Type 0 where
  pub title : String
  pub groups : List PbGroup
  pub group_unlock_date : Option Time
  pub group_lock_date : Option Time
  pub knockout_unlock_date : Option Time
  pub knockout_lock_date : Option Time
