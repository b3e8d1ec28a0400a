-- ===== src/Tests/Setups.antt =====
-- The set-up of a contest, and lists.
use wcwcpp_backend.Base.{refl, some, none, [], ◌∷◌, All, string_eq}
use wcwcpp_backend.Base.Int.{pos}
use wcwcpp_backend.Entity.{Country, Match}
use wcwcpp_backend.Rows.{MatchRow}
use wcwcpp_backend.Sql.{World, monad}
use wcwcpp_backend.Sql.Laws.{calm}
use wcwcpp_backend.Sql.Order.{order_by}
use wcwcpp_backend.Sql.Keys.{key_text}
use wcwcpp_backend.Storage.Search.{country_map, get_country_code_to_id_map}
use wcwcpp_backend.Storage.Tally.{IsTallied, total, share}
use wcwcpp_backend.Storage.Tally.Setup.{IsUnplayed, create_matches-IsTallied}
use wcwcpp_backend.Storage.Tally.Start.{create_group_standings-IsTallied}
use wcwcpp_backend.Storage.Contests.Setup.{
  create_matches, create_group_standings, insert_matches, match_error, insert_standings,
  group_standing_error, new_standings,
}
use wcwcpp_backend.Storage.Lists.{list_knockout_matches, match_entity}
use wcwcpp_backend.Storage.Lists.Sorted.{IsInRoundOrder, list_knockout_matches-IsInRoundOrder}
use wcwcpp_backend.Storage.Lists.Groups.{
  list_group_picks, group_picks_of, place_before, own_group_picks,
}
use wcwcpp_backend.Storage.Lists.Gathered.{ArePicksOf, list_group_picks-ArePicksOf}
use wcwcpp_backend.Tests.Data.{contest, cup, db, match_row, group_result}
use wcwcpp_backend.Tests.Requests.{outside}

abbrev new_match : Match
new_match = record group_result { country1_goals = none; country2_goals = none }

abbrev cup_world : World
cup_world = calm (record db { contests = cup ∷ []; matches = [] })

-- FRA against GER, not played yet.
abbrev added : MatchRow
added = match_row 300 (pos 0) none (some 13) (some 14)

abbrev with_match : World
with_match = calm (record cup_world.db { matches = added ∷ [] })

create_matches-IsTallied_example :
    All (IsTallied with_match.db.matches) with_match.db.group_standings
unfolding create_matches insert_matches match_error total monad country_map
create_matches-IsTallied_example =
    create_matches-IsTallied outside.new_match contest (new_match ∷ []) cup_world {w' = with_match}
      refl (refl, (refl, (refl, (refl, tt))))

abbrev france : Country
france = record { code = "FRA"; full_name = "FRA" }

abbrev bare : World
bare = calm (record cup_world.db { group_standings = []; matches = added ∷ [] })

abbrev filled : World
filled =
    (create_group_standings outside.without_rows contest
      (record { letter = "A"; countries = france ∷ [] } ∷ []) bare).1

added-IsUnplayed : IsUnplayed contest added
unfolding share
added-IsUnplayed c = refl

create_group_standings-IsTallied_example :
    All (IsTallied filled.db.matches) filled.db.group_standings
unfolding create_group_standings insert_standings group_standing_error new_standings monad
    get_country_code_to_id_map country_map
create_group_standings-IsTallied_example =
    create_group_standings-IsTallied outside.without_rows contest
      (record { letter = "A"; countries = france ∷ [] } ∷ []) bare {w' = filled}
      (added-IsUnplayed, tt) tt refl

abbrev first : MatchRow
first = match_row 202 (pos 1) (some (pos 1)) none none

abbrev second : MatchRow
second = match_row 203 (pos 2) (some (pos 0)) none none

abbrev bracket : World
bracket = calm (record db { matches = second ∷ first ∷ [] })

list_knockout_matches-IsInRoundOrder_example :
    IsInRoundOrder bracket.db
      (second ∷ first ∷ [])
      (match_entity bracket.db first ∷ match_entity bracket.db second ∷ [])
unfolding list_knockout_matches order_by monad
list_knockout_matches-IsInRoundOrder_example =
    list_knockout_matches-IsInRoundOrder contest bracket {w' = bracket} refl

list_group_picks-ArePicksOf_example :
    ArePicksOf
      (order_by (place_before key_text) (own_group_picks key_text 6 contest db))
      (group_picks_of (order_by (place_before key_text) (own_group_picks key_text 6 contest db)))
unfolding list_group_picks monad
list_group_picks-ArePicksOf_example =
    list_group_picks-ArePicksOf key_text 6 contest (calm db) {w' = calm db} refl
