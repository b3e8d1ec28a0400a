-- ===== src/Handler/Match.antt =====
-- `MatchHandler` of adapters/handler/match.go. Go's `int` has 64 bits, so that its conversions to and
-- from `int64` change nothing.
use wcwcpp_backend.Base.{String, Option, none, some, List, map}
use wcwcpp_backend.Base.Int.{ℤ, pos}
use wcwcpp_backend.Entity.{Country, Match}
use wcwcpp_backend.Sql.{Done}
use wcwcpp_backend.Handler.{Handler, serve, failed}
use wcwcpp_backend.Handler.Messages.{PbCountry, PbMatch}
use wcwcpp_backend.Handler.Interceptor.{Env, Parse, with_public, with_superadmin}
use wcwcpp_backend.Ports.{ContestRepository}
use wcwcpp_backend.Service.Match as Service

abbrev pub country_to_proto : Country → PbCountry
country_to_proto c = record { code = c.code; full_name = c.full_name }

abbrev pub proto_to_country : PbCountry → Country
proto_to_country c = record { code = c.code; full_name = c.full_name }

abbrev pub through : {A B : Type 0} → (A → B) → Option A → Option B
through f none = none
through f (some a) = some (f a)

abbrev pub copied : Option ℤ → Option ℤ
copied none = none
copied (some z) = some z

unfoldable pub match_to_proto : Match → PbMatch
match_to_proto m = record {
  country1 = through country_to_proto m.country1;
  country2 = through country_to_proto m.country2;
  country1_goals = copied m.country1_goals;
  country2_goals = copied m.country2_goals;
  country1_penalties = copied m.country1_penalties;
  country2_penalties = copied m.country2_penalties;
  round = m.round;
  round_index = copied m.round_index;
  country1_conduct_score = copied m.country1_conduct_score;
  country2_conduct_score = copied m.country2_conduct_score;
}

unfoldable pub map_matches_to_proto : List Match → List PbMatch
map_matches_to_proto matches = map match_to_proto matches

-- `entity.Match{}`.
abbrev pub empty_match : Match
empty_match = record {
  country1 = none;
  country2 = none;
  country1_goals = none;
  country2_goals = none;
  country1_penalties = none;
  country2_penalties = none;
  country1_conduct_score = none;
  country2_conduct_score = none;
  round = pos 0;
  round_index = none;
}

unfoldable pub map_proto_to_match : Option PbMatch → Match
map_proto_to_match none = empty_match
map_proto_to_match (some m) = record {
  country1 = through proto_to_country m.country1;
  country2 = through proto_to_country m.country2;
  country1_goals = copied m.country1_goals;
  country2_goals = copied m.country2_goals;
  country1_penalties = copied m.country1_penalties;
  country2_penalties = copied m.country2_penalties;
  country1_conduct_score = copied m.country1_conduct_score;
  country2_conduct_score = copied m.country2_conduct_score;
  round = m.round;
  round_index = copied m.round_index;
}

module _ (env : Env) (parse : Parse) (repo : ContestRepository) where
  unfoldable pub list_group_matches : String → String → Handler (List PbMatch)
  list_group_matches slug letter = with_public (λ ctx.
      serve (Service.list_group_matches repo slug letter) map_matches_to_proto (λ e. failed e))

  unfoldable pub list_knockout_matches : String → Handler (List PbMatch)
  list_knockout_matches slug =
      with_public (λ ctx.
        serve (Service.list_knockout_matches repo slug) map_matches_to_proto (λ e. failed e))

  unfoldable pub create_match : String → Option PbMatch → String → Handler Done
  create_match slug m = with_superadmin env parse (λ ctx.
      serve (Service.create_match repo slug (map_proto_to_match m)) (λ _. tt) (λ e. failed e))
