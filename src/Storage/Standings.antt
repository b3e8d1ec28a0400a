-- ===== src/Storage/Standings.antt =====
-- The group stage part of the transaction of `UpdateMatch`, adapters/storage/postgres/contest.go:
-- the standings of the two countries of a match with a score.
pub mod Sound
use wcwcpp_backend.Base.{Bool, Option, none, some, List, ◌&&◌, ◌==◌, nat_eq, select}
use wcwcpp_backend.Base.Int.{ℤ}
use wcwcpp_backend.Entity.{Uuid}
use wcwcpp_backend.Rows.{Db, MatchRow, GroupStandingRow}
use wcwcpp_backend.Sql.{
  Action, World, Result, ok, err, Error, message, wrap, Done, pure, fail, ◌>>=◌, ◌>>◌, query_one,
  write, on_error, update_where,
}
use wcwcpp_backend.Storage.Score.{Score, conduct, apply_score, revert_score}

abbrev pub group_key : Uuid → Uuid → GroupStandingRow → Bool
group_key contest country s = s.contest_id == contest && s.country_id == country

-- The score of a match, once both sides' goals are known.
abbrev pub score_of_goals : Option ℤ → Option ℤ → MatchRow → Option Score
score_of_goals none g2 m = none
score_of_goals (some g1) none m = none
score_of_goals (some g1) (some g2) m = some (record {
  goals1 = g1;
  goals2 = g2;
  conduct1 = conduct m.country1_conduct_score;
  conduct2 = conduct m.country2_conduct_score;
})

abbrev pub score_of_match : MatchRow → Option Score
score_of_match m = score_of_goals m.country1_goals m.country2_goals m

abbrev pub revert_if :
    Option Score → GroupStandingRow × GroupStandingRow → GroupStandingRow × GroupStandingRow
revert_if none s = s
revert_if (some old) s = revert_score old s

-- The columns that the update of a standing sets.
abbrev pub set_counts : GroupStandingRow → GroupStandingRow → GroupStandingRow
set_counts new s = record s {
  wins = new.wins;
  draws = new.draws;
  losses = new.losses;
  gf = new.gf;
  ga = new.ga;
  gd = new.gd;
  points = new.points;
  cs = new.cs;
}

unfoldable pub save_standing : Uuid → Uuid → GroupStandingRow → Db → Db
save_standing contest country new db = record db {
  group_standings = update_where (group_key contest country) (set_counts new) db.group_standings;
}

unfoldable pub standing_rows : Uuid → Uuid → Db → List GroupStandingRow
standing_rows contest country db = select (group_key contest country) db.group_standings

-- Fetch both standings, take out the old score, count the new one, and save both.
unfoldable pub count_score : Uuid → Uuid → Uuid → Option Score → Score → Action Done
count_score contest c1 c2 old new = do
  s1 ←
      on_error (wrap "failed to fetch standing for country1") (query_one (standing_rows contest c1))
  s2 ←
      on_error (wrap "failed to fetch standing for country2") (query_one (standing_rows contest c2))
  let t = apply_score new (revert_if old (s1, s2))
  on_error (wrap "failed to update standing for country1") (write (save_standing contest c1 t.0))
  on_error (wrap "failed to update standing for country2") (write (save_standing contest c2 t.1))

abbrev pub count_for : Uuid → Option Uuid → Option Uuid → Option Score → Score → Action Done
count_for contest (some c1) (some c2) old new = count_score contest c1 c2 old new
count_for contest none c2 old new =
    fail (message "cannot update standings for match with undefined countries")
count_for contest (some c1) none old new =
    fail (message "cannot update standings for match with undefined countries")

abbrev pub count_if : Uuid → Option Uuid → Option Uuid → Option Score → Option Score → Action Done
count_if contest c1 c2 old none = pure tt
count_if contest c1 c2 old (some new) = count_for contest c1 c2 old new

-- `if !isKnockout && updateModel.Country1Goals != nil && updateModel.Country2Goals != nil`, with
-- the match as it was and as it is now. The countries are those of the match as it was.
unfoldable pub update_standings : MatchRow → MatchRow → Action Done
unfolding count_score
update_standings old new =
    count_if old.contest_id old.country1_id old.country2_id (score_of_match old)
      (score_of_match new)
