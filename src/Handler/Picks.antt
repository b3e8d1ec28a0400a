-- ===== src/Handler/Picks.antt =====
-- `PicksHandler` of adapters/handler/picks.go.
pub mod Locked
use wcwcpp_backend.Base.{
  ℕ, suc, String, Bool, true, false, Option, none, some, List, [], ◌∷◌, ◌++◌, map, Dict, lookup,
  insert, string_eq,
}
use wcwcpp_backend.Base.Int.{ℤ, pos}
use wcwcpp_backend.Entity.{
  Uuid, Time, GroupPick, GroupPickEntry, GroupStanding, KnockoutPick, KnockoutPickEntry,
}
use wcwcpp_backend.Sql.{Error, Done, World}
use wcwcpp_backend.Handler.{
  Handler, Answer, serve, refused, panicked, not_found, failed_precondition, says, by_tests,
}
use wcwcpp_backend.Handler.Messages.{
  PbCountry, PbGroup, PbGroupPick, PbRankedCountry, PbRankedGroup, PbKnockoutEntry, PbKnockoutPick,
}
use wcwcpp_backend.Handler.Interceptor.{Env, Parse, with_auth, with_user}
use wcwcpp_backend.Handler.Match.{proto_to_country, country_to_proto}
use wcwcpp_backend.Ports.{PicksRepository}
use wcwcpp_backend.Service.Picks as Service

abbrev pub group_pick_to_proto : GroupPick → PbGroupPick
group_pick_to_proto p = record {
  group =
      some
        (record { letter = p.letter; countries = map (λ e. country_to_proto e.country) p.entries });
  extra_qualifier = p.extra_qualifier;
}

abbrev pub is_true : Option Bool → Bool
is_true none = false
is_true (some b) = b

abbrev pub ranked_country : GroupStanding → PbRankedCountry
ranked_country s = record {
  code = s.country.code;
  full_name = s.country.full_name;
  points = s.points;
  wins = s.wins;
  draws = s.draws;
  losses = s.losses;
  goals_for = s.goals_for;
  goals_against = s.goals_against;
  goal_difference = s.goal_difference;
  conduct_score = s.conduct_score;
  is_third_place_qualifier = is_true s.is_third_place_qualifier;
  rank = s.rank;
}

abbrev pub finalized_by : Option ℤ → Bool → Bool
finalized_by none before = before
finalized_by (some r) before = true

abbrev pub qualifier_by : Option Bool → PbRankedGroup → PbRankedGroup
qualifier_by none g = g
qualifier_by (some b) g = record g { extra_qualifier_finalized = true; extra_qualifier = some b }

-- One turn of the loop, on the group of the standing's letter.
abbrev pub add_ranked : GroupStanding → PbRankedGroup → PbRankedGroup
add_ranked s g =
    let h = qualifier_by s.is_third_place_qualifier g in
    record h {
      finalized = finalized_by s.rank h.finalized;
      ranked_countries = h.ranked_countries ++ ranked_country s ∷ [];
    }

abbrev pub new_ranked_group : String → PbRankedGroup
new_ranked_group letter = record {
  letter = letter;
  ranked_countries = [];
  extra_qualifier = none;
  finalized = false;
  extra_qualifier_finalized = false;
}

-- `groupMap` and `order`.
pub record RankedGroups : Type 0 where
  pub group_map : Dict String PbRankedGroup
  pub order : List String

abbrev pub rank_standing : GroupStanding → RankedGroups → RankedGroups
rank_standing s g = elim (lookup s.letter g.group_map) [
  | some group ↦ record g { group_map = insert s.letter (add_ranked s group) g.group_map }
  | none ↦ record {
    group_map = insert s.letter (add_ranked s (new_ranked_group s.letter)) g.group_map;
    order = g.order ++ s.letter ∷ [];
  }
]

abbrev pub rank_standings : List GroupStanding → RankedGroups → RankedGroups
rank_standings [] g = g
rank_standings (s ∷ ss) g = rank_standings ss (rank_standing s g)

-- Each letter of `order` is a key of `groupMap`.
abbrev pub groups_in : List String → Dict String PbRankedGroup → List PbRankedGroup
groups_in [] groups = []
groups_in (l ∷ ls) groups =
    let rest = groups_in ls groups in elim (lookup l groups) [ some g ↦ g ∷ rest | none ↦ rest ]

unfoldable pub build_ranked_groups : List GroupStanding → List PbRankedGroup
build_ranked_groups standings =
    let g = rank_standings standings (record { group_map = []; order = [] }) in
    groups_in g.order g.group_map

abbrev pub group_picks_response :
    List GroupPick × List GroupStanding → List PbGroupPick × List PbRankedGroup
group_picks_response (picks, standings) =
    (map group_pick_to_proto picks, build_ranked_groups standings)

-- The places are the positions in the message, from 1.
abbrev pub entries_from : ℕ → List PbCountry → List GroupPickEntry
entries_from j [] = []
entries_from j (c ∷ cs) =
    record { country = proto_to_country c; place = pos (suc j) } ∷ entries_from (suc j) cs

-- None where the code follows a nil pointer.
unfoldable pub proto_to_group_picks : List PbGroupPick → Option (List GroupPick)
proto_to_group_picks [] = some []
proto_to_group_picks (p ∷ ps) =
    let rest = proto_to_group_picks ps in
    elim p.group [
      | none ↦ none
      | some g ↦ (elim rest [
        | none ↦ none
        | some picks ↦ some (
            record {
              letter = g.letter;
              entries = entries_from 0 g.countries;
              extra_qualifier = p.extra_qualifier;
            }
            ∷ picks)
      ])
    ]

abbrev pub knockout_entry_to_proto : KnockoutPickEntry → PbKnockoutEntry
knockout_entry_to_proto e = record { country = some (country_to_proto e.country); round = e.round }

unfoldable pub entity_knockout_pick_to_pb : KnockoutPick → PbKnockoutPick
entity_knockout_pick_to_pb pick = record { entries = map knockout_entry_to_proto pick.entries }

abbrev pub proto_entries : List PbKnockoutEntry → Option (List KnockoutPickEntry)
proto_entries [] = some []
proto_entries (e ∷ es) =
    let rest = proto_entries es in
    elim e.country [
      | none ↦ none
      | some c ↦ (elim rest [
        | none ↦ none
        | some entries ↦ some (record { country = proto_to_country c; round = e.round } ∷ entries)
      ])
    ]

unfoldable pub pb_knockout_pick_to_entity : Option PbKnockoutPick → Option KnockoutPick
pb_knockout_pick_to_entity none = none
pb_knockout_pick_to_entity (some pick) = elim (proto_entries pick.entries) [
  | none ↦ none
  | some es ↦ some (record { entries = es })
]

abbrev pub knockout_picks_response : KnockoutPick × KnockoutPick → PbKnockoutPick × PbKnockoutPick
knockout_picks_response (pick, result) =
    (entity_knockout_pick_to_pb pick, entity_knockout_pick_to_pb result)

unfoldable pub refuse_list : {B : Type 0} → Error → Answer B
refuse_list e = by_tests e ((says e "contest not found", refused not_found (some e)) ∷ [])

unfoldable pub refuse_group_picks : Error → Answer Done
refuse_group_picks e = by_tests e (
    (says e "contest not found", refused not_found (some e))
    ∷ (says e "group stage picks are locked", refused failed_precondition (some e))
    ∷ [])

unfoldable pub refuse_knockout_picks : Error → Answer Done
refuse_knockout_picks e = by_tests e (
    (says e "contest not found", refused not_found (some e))
    ∷ (says e "knockout stage picks are locked", refused failed_precondition (some e))
    ∷ [])

-- A message that cannot be followed ends the call before the service.
abbrev pub or_panic :
    {A B : Type 0} → Option A → (A → World → Answer B × World) → World → Answer B × World
or_panic none next w = (panicked, w)
or_panic (some a) next w = next a w

module _ (env : Env) (parse : Parse) (read_uuid : String → Uuid) (repo : PicksRepository) where
  unfoldable pub list_group_picks :
      String → String → Handler (List PbGroupPick × List PbRankedGroup)
  list_group_picks slug = with_auth env parse (
      with_user read_uuid
        (λ user. serve (Service.list_group_picks repo user slug) group_picks_response refuse_list))

  unfoldable pub create_group_picks : Time → String → List PbGroupPick → String → Handler Done
  create_group_picks now slug picks = with_auth env parse (
      with_user read_uuid (λ user. or_panic (proto_to_group_picks picks) (λ made.
        serve (Service.create_group_picks repo now user slug made) (λ _. tt) refuse_group_picks)))

  unfoldable pub list_knockout_picks : String → String → Handler (PbKnockoutPick × PbKnockoutPick)
  list_knockout_picks slug = with_auth env parse (
      with_user read_uuid (λ user.
        serve (Service.list_knockout_picks repo user slug) knockout_picks_response refuse_list))

  unfoldable pub create_knockout_picks :
      Time → String → Option PbKnockoutPick → String → Handler Done
  create_knockout_picks now slug pick = with_auth env parse (
      with_user read_uuid (λ user. or_panic (pb_knockout_pick_to_entity pick) (λ made.
        serve (Service.create_knockout_picks repo now user slug made) (λ _. tt)
          refuse_knockout_picks)))
