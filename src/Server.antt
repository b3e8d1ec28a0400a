-- ===== src/Server.antt =====
-- The program put together, as cmd/server/main.go does it: the handlers on the services on the
-- repositories on the database. A request is one call of an endpoint that can change the database,
-- with its Authorization header. Requests are served one after the other here.
pub mod Kept
pub mod Reachable
use wcwcpp_backend.Base.{ℕ, String, Bool, true, false, Option, none, List, [], ◌∷◌}
use wcwcpp_backend.Entity.{Uuid, Time}
use wcwcpp_backend.Sql.{World, Result}
use wcwcpp_backend.Ports.{TokenValidator}
use wcwcpp_backend.Handler.{Context}
use wcwcpp_backend.Handler.Messages.{PbContestRequest, PbMatch, PbGroupPick, PbKnockoutPick}
use wcwcpp_backend.Handler.Interceptor.{Env, Parse}
use wcwcpp_backend.Handler.Contest as Contest
use wcwcpp_backend.Handler.Match as Match
use wcwcpp_backend.Handler.Picks as Picks
use wcwcpp_backend.Handler.Users as Users
use wcwcpp_backend.Storage.Postgres.{Outside, users, contests, picks}

pub data Request : Type 0 where
  create_contest : PbContestRequest → Request
  create_match : String → Option PbMatch → Request
  finalize_group_rankings : String → String → List String → Request
  finalize_third_place_qualifier : String → String → Bool → Request
  create_group_picks : Time → String → List PbGroupPick → Request
  create_knockout_picks : Time → String → Option PbKnockoutPick → Request
  create_subcontest : Result (List ℕ) → String → String → Bool → Request
  delete_subcontest : String → Request
  join_subcontest : String → Request
  delete_user : Request
  login : Time → String → Option String → Request

-- The libraries and the environment of the process.
pub record Process : Type 0 where
  pub env : Env
  pub parse : Parse
  pub read_uuid : String → Uuid
  pub make_slug : String → String
  pub validator : TokenValidator
  pub sign : Uuid → String → Time → Result String

-- `context.Background()` before the interceptor.
abbrev pub empty_context : Context
empty_context = record { user_id = none; email = none }

-- What the request leaves of the world.
unfoldable pub handle : Process → Outside → Request → String → World → World
handle p o (create_contest m) header w =
    (Contest.create_contest p.env p.parse (contests o) p.make_slug m header empty_context w).1
handle p o (create_match slug m) header w =
    (Match.create_match p.env p.parse (contests o) slug m header empty_context w).1
handle p o (finalize_group_rankings slug letter codes) header w =
    (Contest.finalize_group_rankings p.env p.parse (contests o) slug letter codes header
      empty_context w).1
handle p o (finalize_third_place_qualifier slug letter qualifies) header w =
    (Contest.finalize_third_place_qualifier p.env p.parse (contests o) slug letter qualifies header
      empty_context w).1
handle p o (create_group_picks now slug ps) header w =
    (Picks.create_group_picks p.env p.parse p.read_uuid (picks o) now slug ps header empty_context
      w).1
handle p o (create_knockout_picks now slug pick) header w =
    (Picks.create_knockout_picks p.env p.parse p.read_uuid (picks o) now slug pick header
      empty_context w).1
handle p o (create_subcontest random slug title self_join) header w =
    (Contest.create_subcontest p.env p.parse (contests o) p.read_uuid p.make_slug random slug title
      self_join header empty_context w).1
handle p o (delete_subcontest slug) header w =
    (Contest.delete_subcontest p.env p.parse (contests o) p.read_uuid slug header empty_context w).1
handle p o (join_subcontest code) header w =
    (Contest.join_subcontest p.env p.parse (contests o) p.read_uuid code header empty_context w).1
handle p o (delete_user) header w =
    (Users.delete_user p.env p.parse (users o) p.read_uuid header empty_context w).1
handle p o (login now token username) header w =
    (Users.login p.env p.parse (users o) p.validator p.sign now token username empty_context w).1

-- The request is a call of `CreateContest`.
abbrev pub is_creation : Request → Bool
is_creation (create_contest m) = true
is_creation r = false

-- What the server goes through with some requests, the last one first, whatever they ask and
-- whatever the database refuses.
pub data Reaches (p : Process) (start : World) : List Request → World → Type 0 where
  begin : Reaches p start [] start
  serves :
      {rs : List Request} {w : World} (o : Outside) (r : Request) (header : String)
      → Reaches p start rs w
      → Reaches p start (r ∷ rs) (handle p o r header w)
  changes_faults :
      {rs : List Request} {w : World} (faults : List (Option String))
      → Reaches p start rs w
      → Reaches p start rs (record { db = w.db; faults = faults })
