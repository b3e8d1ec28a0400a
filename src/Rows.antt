-- ===== src/Rows.antt =====
-- The rows of the tables of db/schema.sql, as adapters/storage/jet/wcwcpp/public/model/*.go has
-- them, and the database: one list of rows for each table. An `*int32` or `*uuid.UUID` is an option.
use wcwcpp_backend.Base.{String, Bool, Option, List}
use wcwcpp_backend.Base.Int.{ℤ}
use wcwcpp_backend.Entity.{Uuid, Time}

pub record UserRow : Type 0 where
  pub id : Uuid
  pub email : String
  pub username : String

pub record ContestRow : Type 0 where
  pub id : Uuid
  pub title : String
  pub slug : String
  pub group_unlock_date : Time
  pub group_lock_date : Time
  pub knockout_unlock_date : Time
  pub knockout_lock_date : Time

pub record CountryRow : Type 0 where
  pub id : Uuid
  pub code : String
  pub full_name : String

pub record SubcontestRow : Type 0 where
  pub id : Uuid
  pub contest_id : Uuid
  pub user_id : Uuid
  pub join_code : String
  pub title : String
  pub slug : String

pub record ContestStandingRow : Type 0 where
  pub contest_id : Uuid
  pub user_id : Uuid
  pub group_score : ℤ
  pub knockout_score : ℤ

pub record SubcontestEntryRow : Type 0 where
  pub subcontest_id : Uuid
  pub user_id : Uuid

pub record GroupStandingRow : Type 0 where
  pub contest_id : Uuid
  pub country_id : Uuid
  pub letter : String
  pub points : ℤ
  pub wins : ℤ
  pub draws : ℤ
  pub losses : ℤ
  pub gf : ℤ
  pub ga : ℤ
  pub gd : ℤ
  pub cs : ℤ
  pub rank : Option ℤ
  pub is_third_place_qualifier : Option Bool

pub record KnockoutStandingRow : Type 0 where
  pub contest_id : Uuid
  pub country_id : Uuid
  pub round : ℤ

pub record GroupPickRow : Type 0 where
  pub user_id : Uuid
  pub contest_id : Uuid
  pub country_id : Uuid
  pub letter : String
  pub place : ℤ
  pub extra_qualifier : Bool

pub record KnockoutPickRow : Type 0 where
  pub user_id : Uuid
  pub contest_id : Uuid
  pub country_id : Uuid
  pub round : ℤ

pub record MatchRow : Type 0 where
  pub id : Uuid
  pub contest_id : Uuid
  pub round : ℤ
  pub round_index : Option ℤ
  pub country1_id : Option Uuid
  pub country2_id : Option Uuid
  pub country1_goals : Option ℤ
  pub country2_goals : Option ℤ
  pub country1_penalties : Option ℤ
  pub country2_penalties : Option ℤ
  pub country1_conduct_score : Option ℤ
  pub country2_conduct_score : Option ℤ

pub record Db : Type 0 where
  pub users : List UserRow
  pub contests : List ContestRow
  pub countries : List CountryRow
  pub subcontests : List SubcontestRow
  pub contest_standings : List ContestStandingRow
  pub subcontest_entries : List SubcontestEntryRow
  pub group_standings : List GroupStandingRow
  pub knockout_standings : List KnockoutStandingRow
  pub group_picks : List GroupPickRow
  pub knockout_picks : List KnockoutPickRow
  pub matches : List MatchRow
