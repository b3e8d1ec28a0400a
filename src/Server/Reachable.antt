-- ===== src/Server/Reachable.antt =====
-- An invariant of the whole server.
use wcwcpp_backend.Base.{
  ◌≡◌, false, All, arith, ℕ, String, Bool, Option, none, some, List, ◌==◌, string_eq,
}
use wcwcpp_backend.Entity.{Uuid, Time, User, Match}
use wcwcpp_backend.Sql.{World, Result}
use wcwcpp_backend.Sql.Keeps.{
  Keeps, bind-Keeps, then-Keeps, or_fail-Keeps, fail_if-Keeps, if-Keeps, pure-Keeps, fail-Keeps,
  on_error-Keeps,
}
use wcwcpp_backend.Handler.Contest as Contest
use wcwcpp_backend.Handler.Match as Match
use wcwcpp_backend.Handler.Picks as Picks
use wcwcpp_backend.Handler.Users as Users
use wcwcpp_backend.Service.Contest as ContestService
use wcwcpp_backend.Service.Match as MatchService
use wcwcpp_backend.Service.Picks as PicksService
use wcwcpp_backend.Service.Auth as AuthService
use wcwcpp_backend.Storage.Postgres.{Outside, users, contests, picks}
use wcwcpp_backend.Storage.Tally.Knockout.{IsKept}
use wcwcpp_backend.Storage.Tally.Update.{update_match-IsKept}
use wcwcpp_backend.Storage.Tally.Kept.{
  finalize_group_rankings-Keeps, finalize_third_place_qualifier-Keeps,
}
use wcwcpp_backend.Storage.Tally.Apart.{
  create_group_picks-Keeps, create_knockout_picks-Keeps, create_user-Keeps, delete_user-Keeps,
  create_subcontest-Keeps, join_subcontest-Keeps, delete_subcontest-Keeps,
}
use wcwcpp_backend.Server.{
  Request, is_creation, create_contest, create_match, finalize_group_rankings,
  finalize_third_place_qualifier, create_group_picks, create_knockout_picks, create_subcontest,
  delete_subcontest, join_subcontest, delete_user, login, Process, handle, Reaches, begin, serves,
  changes_faults, empty_context,
}
use wcwcpp_backend.Server.Kept.{
  get_contest-Keeps, get_subcontest-Keeps, get_joined-Keeps, find_by_email-Keeps, from_result-Keeps,
  serve-Held, or_panic-Held, with_auth-Held, with_superadmin-Held, with_user-Held,
}

service_match-Keeps :
    (o : Outside) (slug : String) (m : Match)
    → Keeps IsKept (MatchService.create_match (contests o) slug m)
unfolding MatchService.create_match contests
service_match-Keeps o slug m =
    bind-Keeps IsKept (get_contest-Keeps IsKept slug)
      λ contest. record { run = λ w k. update_match-IsKept contest.id m w k }

register-Keeps :
    (o : Outside) (email : String) (username : Option String)
    → Keeps IsKept (AuthService.register (users o) email username)
unfolding AuthService.register users
register-Keeps o email none = fail-Keeps IsKept _
register-Keeps o email (some name) =
    if-Keeps IsKept (name == "") (fail-Keeps IsKept _)
      (on_error-Keeps IsKept _ (create_user-Keeps _ _ _))

or_register-Keeps :
    (o : Outside) (email : String) (username : Option String) (found : Option User)
    → Keeps IsKept (AuthService.or_register (users o) email username found)
or_register-Keeps o email username none = register-Keeps o email username
or_register-Keeps o email username (some user) = pure-Keeps IsKept user

service_login-Keeps :
    (o : Outside) (p : Process) (now : Time) (token : String) (username : Option String)
    → Keeps IsKept (AuthService.login (users o) p.validator p.sign now token username)
unfolding AuthService.login users
service_login-Keeps o p now token username =
    bind-Keeps IsKept (on_error-Keeps IsKept _ (from_result-Keeps IsKept _)) λ email.
      bind-Keeps IsKept (on_error-Keeps IsKept _ (find_by_email-Keeps IsKept email)) λ found.
        bind-Keeps IsKept (or_register-Keeps o email username found) λ user.
          bind-Keeps IsKept (on_error-Keeps IsKept _ (from_result-Keeps IsKept _))
            λ signed. pure-Keeps IsKept _

service_subcontest-Keeps :
    (o : Outside) (make_slug : String → String) (random : Result (List ℕ)) (user : Uuid)
    (slug title : String) (self_join : Bool)
    → Keeps IsKept
        (ContestService.create_subcontest (contests o) make_slug random user slug title self_join)
unfolding ContestService.create_subcontest contests
service_subcontest-Keeps o make_slug random user slug title self_join =
    bind-Keeps IsKept (get_contest-Keeps IsKept slug) λ contest.
      bind-Keeps IsKept (from_result-Keeps IsKept random) λ bytes.
        bind-Keeps IsKept (create_subcontest-Keeps _ _) λ id.
          then-Keeps IsKept
            (if-Keeps IsKept self_join (join_subcontest-Keeps id user) (pure-Keeps IsKept tt))
            (pure-Keeps IsKept _)

service_deletion-Keeps :
    (o : Outside) (user : Uuid) (slug : String)
    → Keeps IsKept (ContestService.delete_subcontest (contests o) user slug)
unfolding ContestService.delete_subcontest contests
service_deletion-Keeps o user slug = bind-Keeps IsKept (get_subcontest-Keeps IsKept slug) λ found.
    bind-Keeps IsKept (or_fail-Keeps IsKept found _)
      λ sub. then-Keeps IsKept (fail_if-Keeps IsKept _ _) (delete_subcontest-Keeps sub.id)

service_join-Keeps :
    (o : Outside) (user : Uuid) (code : String)
    → Keeps IsKept (ContestService.join_subcontest (contests o) user code)
unfolding ContestService.join_subcontest contests
service_join-Keeps o user code = bind-Keeps IsKept (get_joined-Keeps IsKept code) λ found.
    bind-Keeps IsKept (or_fail-Keeps IsKept found _) λ sub. join_subcontest-Keeps sub.id user

service_rankings-Keeps :
    (o : Outside) (slug letter : String) (codes : List String)
    → Keeps IsKept (ContestService.finalize_group_rankings (contests o) slug letter codes)
unfolding ContestService.finalize_group_rankings contests
service_rankings-Keeps o slug letter codes =
    bind-Keeps IsKept (get_contest-Keeps IsKept slug)
      λ contest. finalize_group_rankings-Keeps o.map_order contest.id letter codes

service_qualifier-Keeps :
    (o : Outside) (slug letter : String) (qualifies : Bool)
    → Keeps IsKept
        (ContestService.finalize_third_place_qualifier (contests o) slug letter qualifies)
unfolding ContestService.finalize_third_place_qualifier contests
service_qualifier-Keeps o slug letter qualifies =
    bind-Keeps IsKept (get_contest-Keeps IsKept slug) λ contest.
      finalize_third_place_qualifier-Keeps o.row_order o.pick_order contest.id letter qualifies

handle-IsKept :
    (p : Process) (o : Outside) (r : Request) (header : String) (w : World)
    → is_creation r ≡ false
    → IsKept w.db
    → IsKept (handle p o r header w).db
unfolding handle Match.create_match Contest.finalize_group_rankings
    Contest.finalize_third_place_qualifier Picks.create_group_picks Picks.create_knockout_picks
    Contest.create_subcontest Contest.delete_subcontest Contest.join_subcontest Users.delete_user
    Users.login PicksService.create_group_picks PicksService.create_knockout_picks picks users
    AuthService.delete_user
handle-IsKept p o (create_contest m) header w n k = absurd (ground (arith, n))
handle-IsKept p o (create_match slug m) header w n k =
    with_superadmin-Held IsKept p.env p.parse _ header empty_context
      (λ c. serve-Held IsKept _ _ (service_match-Keeps o slug _)) w k
handle-IsKept p o (finalize_group_rankings slug letter codes) header w n k =
    with_superadmin-Held IsKept p.env p.parse _ header empty_context
      (λ c. serve-Held IsKept _ _ (service_rankings-Keeps o slug letter codes)) w k
handle-IsKept p o (finalize_third_place_qualifier slug letter qualifies) header w n k =
    with_superadmin-Held IsKept p.env p.parse _ header empty_context
      (λ c. serve-Held IsKept _ _ (service_qualifier-Keeps o slug letter qualifies)) w k
handle-IsKept p o (create_group_picks now slug ps) header w n k =
    with_auth-Held IsKept p.env p.parse _ header empty_context
      (λ c. with_user-Held IsKept p.read_uuid _ c λ user. or_panic-Held IsKept _ _ λ made.
        serve-Held IsKept _ _ (
          bind-Keeps IsKept (get_contest-Keeps IsKept slug) λ contest.
            then-Keeps IsKept (fail_if-Keeps IsKept _ _)
              (create_group_picks-Keeps user contest.id made)))
      w k
handle-IsKept p o (create_knockout_picks now slug pick) header w n k =
    with_auth-Held IsKept p.env p.parse _ header empty_context
      (λ c. with_user-Held IsKept p.read_uuid _ c λ user. or_panic-Held IsKept _ _ λ made.
        serve-Held IsKept _ _ (
          bind-Keeps IsKept (get_contest-Keeps IsKept slug) λ contest.
            then-Keeps IsKept (fail_if-Keeps IsKept _ _)
              (create_knockout_picks-Keeps user contest.id made)))
      w k
handle-IsKept p o (create_subcontest random slug title self_join) header w n k =
    with_auth-Held IsKept p.env p.parse _ header empty_context
      (λ c. with_user-Held IsKept p.read_uuid _ c λ user.
        serve-Held IsKept _ _
          (service_subcontest-Keeps o p.make_slug random user slug title self_join))
      w k
handle-IsKept p o (delete_subcontest slug) header w n k =
    with_auth-Held IsKept p.env p.parse _ header empty_context
      (λ c.
        with_user-Held IsKept p.read_uuid _ c
          λ user. serve-Held IsKept _ _ (service_deletion-Keeps o user slug))
      w k
handle-IsKept p o (join_subcontest code) header w n k =
    with_auth-Held IsKept p.env p.parse _ header empty_context
      (λ c.
        with_user-Held IsKept p.read_uuid _ c
          λ user. serve-Held IsKept _ _ (service_join-Keeps o user code))
      w k
handle-IsKept p o (delete_user) header w n k =
    with_auth-Held IsKept p.env p.parse _ header empty_context
      (λ c.
        with_user-Held IsKept p.read_uuid _ c
          λ user. serve-Held IsKept _ _ (delete_user-Keeps user))
      w k
handle-IsKept p o (login now token username) header w n k =
    serve-Held IsKept _ _ (service_login-Keeps o p now token username) w k

-- In every state that the server reaches by requests other than `CreateContest`, whatever their
-- headers and messages, whatever the database refuses and whichever identifiers it makes, every
-- group standing holds the points, wins, draws, losses, goals and conduct score that the played
-- group matches of its country give, if it was so at the start, with distinct match identifiers and
-- group matches that have no index and two different countries.
pub Reaches-IsKept :
    (p : Process) (start : World) (rs : List Request) {w : World}
    → IsKept start.db
    → All (λ r. is_creation r ≡ false) rs
    → Reaches p start rs w
    → IsKept w.db
Reaches-IsKept p start rs k n (begin) = k
Reaches-IsKept p start rs k n (serves {rs = earlier} {w} o r header before) =
    handle-IsKept p o r header w n.0 (Reaches-IsKept p start earlier k n.1 before)
Reaches-IsKept p start rs k n (changes_faults faults before) = Reaches-IsKept p start rs k n before
