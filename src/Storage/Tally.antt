-- ===== src/Storage/Tally.antt =====
-- The group table that the matches give: what `group_standings` is meant to hold. A group match
-- (round 0) with both countries and both goals counts for each of its countries: 3 points for a win,
-- 1 for a draw. Columns are int32 and wrap.
pub mod Sum
pub mod Rows
pub mod Score
pub mod Count
pub mod Knockout
pub mod Update
pub mod Setup
pub mod Start
pub mod Kept
pub mod Apart
use wcwcpp_backend.Base.{
  Bool, true, false, not, Option, none, some, List, [], ◌∷◌, ◌&&◌, ◌==◌, nat_eq, if◌then◌else◌, ◌≡◌,
}
use wcwcpp_backend.Base.Int.{ℤ, pos, add32, ltb_ℤ, int_eq}
use wcwcpp_backend.Entity.{Uuid}
use wcwcpp_backend.Rows.{MatchRow, GroupStandingRow}
use wcwcpp_backend.Storage.Score.{conduct}

-- The columns that matches add to.
pub record Share : Type 0 where
  pub points : ℤ
  pub wins : ℤ
  pub draws : ℤ
  pub losses : ℤ
  pub gf : ℤ
  pub ga : ℤ
  pub cs : ℤ

abbrev pub no_share : Share
no_share = record {
  points = pos 0;
  wins = pos 0;
  draws = pos 0;
  losses = pos 0;
  gf = pos 0;
  ga = pos 0;
  cs = pos 0;
}

abbrev pub plus : Share → Share → Share
plus a b = record {
  points = add32 a.points b.points;
  wins = add32 a.wins b.wins;
  draws = add32 a.draws b.draws;
  losses = add32 a.losses b.losses;
  gf = add32 a.gf b.gf;
  ga = add32 a.ga b.ga;
  cs = add32 a.cs b.cs;
}

abbrev pub one_if : Bool → ℤ
one_if b = if b then pos 1 else pos 0

-- A match as one of its countries sees it: its goals, the other's, and its conduct score.
abbrev pub outcome : ℤ → ℤ → ℤ → Share
outcome own other cs = record {
  points = if ltb_ℤ other own then pos 3 else if own == other then pos 1 else pos 0;
  wins = one_if (ltb_ℤ other own);
  draws = one_if (own == other);
  losses = one_if (ltb_ℤ own other);
  gf = own;
  ga = other;
  cs = cs;
}

abbrev pub share_between : Uuid → Option Uuid → Option Uuid → Option ℤ → Option ℤ → ℤ → ℤ → Share
share_between c (some c1) (some c2) (some g1) (some g2) cs1 cs2 =
    if c1 == c then outcome g1 g2 cs1 else if c2 == c then outcome g2 g1 cs2 else no_share
share_between c (some c1) (some c2) (some g1) none cs1 cs2 = no_share
share_between c (some c1) (some c2) none g2 cs1 cs2 = no_share
share_between c (some c1) none g1 g2 cs1 cs2 = no_share
share_between c none c2 g1 g2 cs1 cs2 = no_share

-- What a match adds to the row of a country in a contest.
unfoldable pub share : Uuid → Uuid → MatchRow → Share
share contest c m =
    if m.contest_id == contest && not (ltb_ℤ (pos 0) m.round)
    then share_between c m.country1_id m.country2_id m.country1_goals m.country2_goals
        (conduct m.country1_conduct_score) (conduct m.country2_conduct_score)
    else no_share

unfoldable pub total : Uuid → Uuid → List MatchRow → Share
total contest c [] = no_share
total contest c (m ∷ ms) = plus (share contest c m) (total contest c ms)

abbrev pub columns : GroupStandingRow → Share
columns s = record {
  points = s.points;
  wins = s.wins;
  draws = s.draws;
  losses = s.losses;
  gf = s.gf;
  ga = s.ga;
  cs = s.cs;
}

-- A row of the table holds what the matches give.
abbrev pub IsTallied : List MatchRow → GroupStandingRow → Type 0
IsTallied ms s = columns s ≡ total s.contest_id s.country_id ms
