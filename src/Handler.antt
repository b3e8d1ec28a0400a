-- ===== src/Handler.antt =====
-- The parts that the handlers of adapters/handler share: the request's context, what an endpoint
-- answers, and the texts of errors by which the handlers tell them apart.
pub mod Messages
pub mod Interceptor
pub mod Picks
pub mod Contest
pub mod Match
pub mod Leaderboard
pub mod Users
pub mod Guarded
use wcwcpp_backend.Base.{
  ℕ, String, ◌<>◌, Bool, true, false, Option, none, some, List, [], ◌∷◌, ◌==◌, string_eq, ◌||◌,
  if◌then◌else◌,
}
use wcwcpp_backend.Base.Texts.{contains, decimal}
use wcwcpp_backend.Sql.{
  Error, message, counted, quoted, wrap, no_rows, driver, World, Action, ok, err,
}

-- `context.Context`, as the interceptor fills it.
pub record Context : Type 0 where
  pub user_id : Option String
  pub email : Option String

-- The codes of connect that the handlers use.
pub data Code : Type 0 where
  unauthenticated permission_denied not_found already_exists failed_precondition internal : Code

-- A response, `connect.NewError(code, err)`, an error that is returned as it is, or a nil pointer
-- that is followed.
pub data Answer (B : Type 0) : Type 0 where
  response : B → Answer B
  refused : Code → Option Error → Answer B
  failed : Error → Answer B
  panicked : Answer B

abbrev pub Handler : Type 0 → Type 0
Handler B = Context → World → Answer B × World

-- `err.Error()`. The driver's own prefix is not in its texts here.
unfoldable pub error_text : Error → String
error_text (message t) = t
error_text (counted before n after) = before <> decimal n <> after
error_text (quoted before s after) = before <> s <> after
error_text (wrap before e) = before <> ": " <> error_text e
error_text no_rows = "qrm: no rows in result set"
error_text (driver t) = t

abbrev pub says : Error → String → Bool
says e t = error_text e == t

abbrev pub mentions : Error → String → Bool
mentions e t = contains (error_text e) t

-- The call of the service, what becomes of its result, and what of its error.
unfoldable pub serve :
    {A B : Type 0} → Action A → (A → B) → (Error → Answer B) → World → Answer B × World
serve call reply refuse w =
    let (r, w') = call w in elim r [ ok a ↦ (response (reply a), w') | err e ↦ (refuse e, w') ]

-- `strings.Contains(err.Error(), "duplicate key") || strings.Contains(err.Error(), "unique constraint")`.
abbrev pub is_duplicate : Error → Bool
is_duplicate e = mentions e "duplicate key" || mentions e "unique constraint"

-- The first test that the error passes gives the answer, and none lets it through.
abbrev pub by_tests : {B : Type 0} → Error → List (Bool × Answer B) → Answer B
by_tests e [] = failed e
by_tests e ((b, a) ∷ rest) = if b then a else by_tests e rest
