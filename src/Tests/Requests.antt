-- ===== src/Tests/Requests.antt =====
-- Requests at work.
use wcwcpp_backend.Base.{
  ◌≡◌, refl, arith, inr, ℕ, ◌+◌, String, true, Option, some, none, List, [], ◌∷◌, ◌==◌, string_eq,
  if◌then◌else◌,
}
use wcwcpp_backend.Base.Int.{pos}
use wcwcpp_backend.Base.Texts.{split}
use wcwcpp_backend.Entity.{Uuid, Contest}
use wcwcpp_backend.Sql.{World, Result, ok, message, driver, monad}
use wcwcpp_backend.Sql.Laws.{calm}
use wcwcpp_backend.Sql.Keys.{key_text}
use wcwcpp_backend.Handler.{refused, failed_precondition, Context}
use wcwcpp_backend.Handler.Messages.{PbCountry, PbGroupPick, PbContestRequest}
use wcwcpp_backend.Handler.Interceptor.{
  Env, Parse, Token, not_valid, map_claims, validate_auth_header,
}
use wcwcpp_backend.Handler.Interceptor.Genuine.{
  IsGenuine, validate_auth_header-IsGenuine, ForSuperadmins, ForUsers,
}
use wcwcpp_backend.Handler.Guarded.{management-ForSuperadmins, accounts-ForUsers}
use wcwcpp_backend.Handler.Match.{match_to_proto, map_proto_to_match}
use wcwcpp_backend.Handler.Match as Match
use wcwcpp_backend.Handler.Contest as ContestHandler
use wcwcpp_backend.Handler.Picks as PicksHandler
use wcwcpp_backend.Handler.Users as UsersHandler
use wcwcpp_backend.Handler.Leaderboard as LeaderboardHandler
use wcwcpp_backend.Handler.Picks.{proto_to_group_picks}
use wcwcpp_backend.Handler.Picks.Locked.{refuse_group_picks-locked}
use wcwcpp_backend.Storage.Postgres.{Outside, users, contests, picks, leaderboards}
use wcwcpp_backend.Storage.Search.{get_contest_by_slug, contest_of_row}
use wcwcpp_backend.Storage.Tally.Knockout.{IsKept}
use wcwcpp_backend.Server.{Process, Request, create_match, begin, serves, handle}
use wcwcpp_backend.Server.Reachable.{Reaches-IsKept}
use wcwcpp_backend.Tests.Data.{cup, db, group_result}
use wcwcpp_backend.Tests.Tally.{start, start-IsKept}

abbrev env : Env
env = record { jwt_secret = "secret"; superadmin_emails = "root@mail, ann@mail" }

-- Two tokens are signed: one of Ann, one of Bob.
abbrev token_for : Option String → String → Token
token_for none token = not_valid
token_for (some secret) token =
    if token == "ann"
    then map_claims (some "5") (some "ann@mail")
    else if token == "bob"
    then map_claims (some "6") (some "bob@mail")
    else not_valid

abbrev parse : Parse
parse key token = token_for (key true) token

validate_auth_header-IsGenuine_example : IsGenuine env parse "Bearer ann" "5" "ann@mail"
unfolding validate_auth_header split
validate_auth_header-IsGenuine_example =
    validate_auth_header-IsGenuine env parse "Bearer ann" "5" "ann@mail" refl

abbrev pub outside : Outside
outside = record {
  new_user = 90;
  new_contest = 91;
  new_subcontest = 92;
  new_country = λ n. n;
  new_match = λ n. 300 + n;
  map_order = λ totals. totals;
  collation = key_text;
  without_rows = driver "no rows to insert";
  bad_offset = none;
  row_order = λ rows. rows;
  pick_order = λ rows. rows;
}

abbrev slug_of : String → String
slug_of title = title

abbrev id_of : String → Uuid
id_of text = if text == "5" then 5 else 6

abbrev new_contest : PbContestRequest
new_contest = record {
  title = "Cup";
  groups = [];
  group_unlock_date = none;
  group_lock_date = none;
  knockout_unlock_date = none;
  knockout_lock_date = none;
}

management-ForSuperadmins_example :
    ForSuperadmins env parse
      (ContestHandler.create_contest env parse (contests outside) slug_of new_contest)
    × ForSuperadmins env parse
        (ContestHandler.finalize_group_rankings env parse (contests outside) "cup" "A" [])
    × ForSuperadmins env parse
        (ContestHandler.finalize_third_place_qualifier env parse (contests outside) "cup" "A" true)
    × ForSuperadmins env parse
        (Match.create_match env parse (contests outside) "cup" (some (match_to_proto group_result)))
management-ForSuperadmins_example =
    management-ForSuperadmins env parse (contests outside) slug_of new_contest "cup" "A" [] true
      (some (match_to_proto group_result))

abbrev random : Result (List ℕ)
random = ok (1 ∷ 2 ∷ 3 ∷ 4 ∷ 5 ∷ 6 ∷ 7 ∷ 8 ∷ [])

abbrev bra : PbCountry
bra = record { code = "BRA"; full_name = "BRA" }

abbrev message_picks : List PbGroupPick
message_picks =
    record { group = some (record { letter = "A"; countries = bra ∷ [] }); extra_qualifier = true }
    ∷ []

accounts-ForUsers_example :
    ForUsers env parse (ContestHandler.list_subcontests env parse (contests outside) id_of "cup")
    × ForUsers env parse (
        ContestHandler.create_subcontest env parse
          (contests outside)
          id_of
          slug_of
          random
          "cup"
          "Work"
          true)
    × ForUsers env parse (ContestHandler.delete_subcontest env parse (contests outside) id_of "cup")
    × ForUsers env parse (ContestHandler.join_subcontest env parse (contests outside) id_of "cup")
    × ForUsers env parse (PicksHandler.list_group_picks env parse id_of (picks outside) "cup")
    × ForUsers env parse
        (PicksHandler.create_group_picks env parse id_of (picks outside) 10 "cup" message_picks)
    × ForUsers env parse (PicksHandler.list_knockout_picks env parse id_of (picks outside) "cup")
    × ForUsers env parse
        (PicksHandler.create_knockout_picks env parse id_of (picks outside) 10 "cup" none)
    × ForUsers env parse (UsersHandler.delete_user env parse (users outside) id_of)
    × ForUsers env parse (
        LeaderboardHandler.subleaderboard env parse
          (leaderboards outside)
          id_of
          "cup"
          (pos 10)
          (pos 0))
accounts-ForUsers_example =
    accounts-ForUsers env parse id_of (contests outside) (picks outside) (users outside)
      (leaderboards outside) slug_of random 10 "cup" "Work" true message_picks none (pos 10) (pos 0)

abbrev process : Process
process = record {
  env = env;
  parse = parse;
  read_uuid = id_of;
  make_slug = slug_of;
  validator = record { validate_google_token = λ token. ok token };
  sign = λ user email until. ok email;
}

abbrev result_request : Request
result_request = create_match "cup" (some (match_to_proto group_result))

abbrev open_cup : World
open_cup = calm (record start.db { contests = cup ∷ [] })

Reaches-IsKept_example : IsKept (handle process outside result_request "Bearer ann" open_cup).db
Reaches-IsKept_example =
    Reaches-IsKept process open_cup (result_request ∷ []) start-IsKept (refl, tt)
      (serves outside result_request "Bearer ann" begin)

abbrev locked_cup : Contest
locked_cup = record (contest_of_row cup) { group_lock_date = 5 }

abbrev locked_world : World
locked_world = calm (record db { contests = record cup { group_lock_date = 5 } ∷ [] })

abbrev nobody : Context
nobody = record { user_id = none; email = none }

refuse_group_picks-locked_example :
    PicksHandler.create_group_picks env parse id_of
      (picks outside)
      10
      "cup"
      message_picks
      "Bearer ann"
      nobody
      locked_world
    ≡ (refused failed_precondition (some (message "group stage picks are locked")), locked_world)
unfolding validate_auth_header split proto_to_group_picks picks get_contest_by_slug monad
refuse_group_picks-locked_example =
    refuse_group_picks-locked env parse id_of (picks outside) 10 "cup" message_picks "Bearer ann"
      "5" "ann@mail" nobody locked_cup locked_world locked_world refl (λ e. absurd (cc)) refl
      (inr ((λ e. omega (arith, e)), omega arith))
