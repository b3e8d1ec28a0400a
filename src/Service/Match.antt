-- ===== src/Service/Match.antt =====
-- `MatchService` of core/service/match.go.
use wcwcpp_backend.Base.{String, List}
use wcwcpp_backend.Entity.{Match}
use wcwcpp_backend.Sql.{Action, Done, ◌>>=◌}
use wcwcpp_backend.Ports.{ContestRepository}
use wcwcpp_backend.Service.Picks.{the_contest}

module _ (repo : ContestRepository) where
  unfoldable pub list_group_matches : String → String → Action (List Match)
  list_group_matches slug letter = do
    contest ← the_contest (repo.get_contest_by_slug slug)
    repo.list_group_matches contest.id letter

  unfoldable pub list_knockout_matches : String → Action (List Match)
  list_knockout_matches slug = do
    contest ← the_contest (repo.get_contest_by_slug slug)
    repo.list_knockout_matches contest.id

  unfoldable pub create_match : String → Match → Action Done
  create_match slug m = do
    contest ← the_contest (repo.get_contest_by_slug slug)
    repo.update_match contest.id m
