-- ===== src/Entity.antt =====
-- The domain types of core/entity/entities.go.
-- An identifier is a UUID: the code carries it as the text that `String` prints and `MustParse`
-- reads back, and only compares it, so it is a number here. A time is the number of instants since
-- the zero time, which `IsZero` tests for. Go's `int` and `int64` fields are integers.
use wcwcpp_backend.Base.{ℕ, String, Bool, Option, List}
use wcwcpp_backend.Base.Int.{ℤ}

abbrev pub Uuid : Type 0
Uuid = ℕ

abbrev pub Time : Type 0
Time = ℕ

pub record Country : Type 0 where
  pub code : String
  pub full_name : String

pub record Group : Type 0 where
  pub letter : String
  pub countries : List Country

pub record Contest : Type 0 where
  pub id : Uuid
  pub title : String
  pub slug : String
  pub group_unlock_date : Time
  pub group_lock_date : Time
  pub knockout_unlock_date : Time
  pub knockout_lock_date : Time
  pub groups : List Group

pub record Subcontest : Type 0 where
  pub id : Uuid
  pub contest_id : Uuid
  pub user_id : Uuid
  pub join_code : String
  pub title : String
  pub slug : String
  pub is_owner : Bool
  pub is_member : Bool

pub record Match : Type 0 where
  pub country1 : Option Country
  pub country2 : Option Country
  pub country1_goals : Option ℤ
  pub country2_goals : Option ℤ
  pub country1_penalties : Option ℤ
  pub country2_penalties : Option ℤ
  pub country1_conduct_score : Option ℤ
  pub country2_conduct_score : Option ℤ
  pub round : ℤ
  pub round_index : Option ℤ

pub record GroupPickEntry : Type 0 where
  pub country : Country
  pub place : ℤ

pub record GroupPick : Type 0 where
  pub letter : String
  pub entries : List GroupPickEntry
  pub extra_qualifier : Bool

pub record KnockoutPickEntry : Type 0 where
  pub country : Country
  pub round : ℤ

pub record KnockoutPick : Type 0 where
  pub entries : List KnockoutPickEntry

pub record GroupStanding : Type 0 where
  pub country : Country
  pub letter : String
  pub points : ℤ
  pub wins : ℤ
  pub draws : ℤ
  pub losses : ℤ
  pub goals_for : ℤ
  pub goals_against : ℤ
  pub goal_difference : ℤ
  pub conduct_score : ℤ
  pub rank : Option ℤ
  pub is_third_place_qualifier : Option Bool

pub record LeaderboardEntry : Type 0 where
  pub name : String
  pub score : ℤ

pub record User : Type 0 where
  pub id : Uuid
  pub email : String
  pub username : String
