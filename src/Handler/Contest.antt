-- ===== src/Handler/Contest.antt =====
-- `ContestHandler` of adapters/handler/contest.go.
use wcwcpp_backend.Base.{ℕ, String, Bool, ◌||◌, Option, none, some, List, [], ◌∷◌, map}
use wcwcpp_backend.Entity.{Uuid, Time, Group, Contest, Subcontest}
use wcwcpp_backend.Sql.{Error, Result, Done, message}
use wcwcpp_backend.Handler.{
  Handler, Answer, serve, failed, refused, not_found, permission_denied, already_exists,
  failed_precondition, says, mentions, is_duplicate, by_tests,
}
use wcwcpp_backend.Handler.Messages.{PbGroup, PbContest, PbSubcontest, PbContestRequest}
use wcwcpp_backend.Handler.Interceptor.{
  Env, Parse, with_public, with_auth, with_superadmin, with_user,
}
use wcwcpp_backend.Handler.Match.{proto_to_country}
use wcwcpp_backend.Ports.{ContestRepository}
use wcwcpp_backend.Service.Contest as Service

abbrev pub contest_to_proto : Contest → PbContest
contest_to_proto c = record {
  title = c.title;
  slug = c.slug;
  group_unlock_date = some c.group_unlock_date;
  group_lock_date = some c.group_lock_date;
  knockout_unlock_date = some c.knockout_unlock_date;
  knockout_lock_date = some c.knockout_lock_date;
}

abbrev pub proto_to_group : PbGroup → Group
proto_to_group g = record { letter = g.letter; countries = map proto_to_country g.countries }

-- A date that is not given stays the zero time.
abbrev pub date_or_zero : Option Time → Time
date_or_zero none = 0
date_or_zero (some t) = t

unfoldable pub contest_of_request : PbContestRequest → Contest
contest_of_request m = record {
  id = 0;
  title = m.title;
  slug = "";
  group_unlock_date = date_or_zero m.group_unlock_date;
  group_lock_date = date_or_zero m.group_lock_date;
  knockout_unlock_date = date_or_zero m.knockout_unlock_date;
  knockout_lock_date = date_or_zero m.knockout_lock_date;
  groups = map proto_to_group m.groups;
}

abbrev pub subcontest_to_proto : Subcontest → PbSubcontest
subcontest_to_proto s = record {
  title = s.title;
  slug = s.slug;
  is_owner = s.is_owner;
  is_member = s.is_member;
  join_code = s.join_code;
}

unfoldable pub refuse_new_contest : Error → Answer Done
refuse_new_contest e = by_tests e (
    (
      is_duplicate e,
      refused already_exists (some (message "a contest with this title already exists")),
    )
    ∷ [])

unfoldable pub refuse_new_subcontest : Error → Answer Done
refuse_new_subcontest e = by_tests e (
    (
      is_duplicate e,
      refused already_exists
          (some (message "a subcontest with this title or join code already exists")),
    )
    ∷ [])

unfoldable pub refuse_deletion : Error → Answer Done
refuse_deletion e = by_tests e (
    (says e "subcontest not found", refused not_found (some e))
    ∷ (says e "not owner", refused permission_denied (some e))
    ∷ [])

unfoldable pub refuse_join : Error → Answer Done
refuse_join e = by_tests e (
    (says e "invalid join code", refused not_found (some (message "invalid join code")))
    ∷ (is_duplicate e, refused already_exists (some (message "already joined this subcontest")))
    ∷ [])

unfoldable pub refuse_rankings : Error → Answer Done
refuse_rankings e = by_tests e (
    (
      mentions e "incomplete group matches" || mentions e "already been finalized",
      refused failed_precondition (some e),
    )
    ∷ (says e "contest not found", refused not_found (some e))
    ∷ [])

unfoldable pub refuse_qualifier : Error → Answer Done
refuse_qualifier e = by_tests e (
    (
      mentions e "already been finalized" || mentions e "rankings might not be finalized",
      refused failed_precondition (some e),
    )
    ∷ (says e "contest not found", refused not_found (some e))
    ∷ [])

module _ (env : Env) (parse : Parse) (repo : ContestRepository) where
  unfoldable pub list_contests : Handler (List PbContest)
  list_contests =
      with_public (λ ctx. serve (Service.list_contests repo) (map contest_to_proto) (λ e. failed e))

  unfoldable pub create_contest : (String → String) → PbContestRequest → String → Handler Done
  create_contest make_slug m = with_superadmin env parse (λ ctx.
      serve (Service.create_contest repo make_slug (contest_of_request m)) (λ _. tt)
        refuse_new_contest)

  unfoldable pub list_subcontests : (String → Uuid) → String → String → Handler (List PbSubcontest)
  list_subcontests read_uuid slug = with_auth env parse (
      with_user read_uuid (λ user.
        serve (Service.list_subcontests repo user slug) (map subcontest_to_proto) (λ e. failed e)))

  unfoldable pub create_subcontest :
      (String → Uuid)
      → (String → String)
      → Result (List ℕ)
      → String
      → String
      → Bool
      → String
      → Handler Done
  create_subcontest read_uuid make_slug random slug title self_join = with_auth env parse (
      with_user read_uuid (λ user.
        serve (Service.create_subcontest repo make_slug random user slug title self_join) (λ _. tt)
          refuse_new_subcontest))

  unfoldable pub delete_subcontest : (String → Uuid) → String → String → Handler Done
  delete_subcontest read_uuid slug = with_auth env parse (
      with_user read_uuid
        (λ user. serve (Service.delete_subcontest repo user slug) (λ _. tt) refuse_deletion))

  unfoldable pub join_subcontest : (String → Uuid) → String → String → Handler Done
  join_subcontest read_uuid join_code = with_auth env parse (
      with_user read_uuid
        (λ user. serve (Service.join_subcontest repo user join_code) (λ _. tt) refuse_join))

  unfoldable pub finalize_group_rankings : String → String → List String → String → Handler Done
  finalize_group_rankings slug letter codes = with_superadmin env parse (λ ctx.
      serve (Service.finalize_group_rankings repo slug letter codes) (λ _. tt) refuse_rankings)

  unfoldable pub finalize_third_place_qualifier : String → String → Bool → String → Handler Done
  finalize_third_place_qualifier slug letter qualifies = with_superadmin env parse (λ ctx.
      serve (Service.finalize_third_place_qualifier repo slug letter qualifies) (λ _. tt)
        refuse_qualifier)
