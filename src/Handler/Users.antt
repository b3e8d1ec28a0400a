-- ===== src/Handler/Users.antt =====
-- `UsersHandler` and `AuthHandler` of adapters/handler/users.go and adapters/handler/auth.go.
use wcwcpp_backend.Base.{ℕ, String, Option, some, Bool, true, false, ◌||◌, ◌==◌, string_eq}
use wcwcpp_backend.Entity.{Uuid, Time, User}
use wcwcpp_backend.Sql.{Done, Result, Error, message, wrap, counted, quoted, no_rows, driver}
use wcwcpp_backend.Handler.{
  Handler, serve, failed, refused, unauthenticated, not_found, internal, Answer,
}
use wcwcpp_backend.Handler.Messages.{PbUser}
use wcwcpp_backend.Handler.Interceptor.{Env, Parse, with_public, with_auth, with_user}
use wcwcpp_backend.Ports.{UserRepository, TokenValidator}
use wcwcpp_backend.Service.Auth as Service

-- `errors.Is(err, target)`, for an error that is made once with a text of its own and wrapped with it.
abbrev pub is_error : String → Error → Bool
is_error t (message s) = s == t
is_error t (wrap s e) = s == t || is_error t e
is_error t (counted before n after) = false
is_error t (quoted before s after) = false
is_error t (no_rows) = false
is_error t (driver s) = false

abbrev pub refuse_login : Error → Answer (String × PbUser)
refuse_login e = elim (is_error "user not found, username required for registration" e) [
  | true ↦ refused not_found (some e)
  | false ↦ (elim (is_error "invalid google token" e) [
    | true ↦ refused unauthenticated (some e)
    | false ↦ refused internal (some e)
  ])
]

abbrev pub login_response : String × User → String × PbUser
login_response (token, user) =
    (token, record { id = user.id; email = user.email; username = user.username })

module _ (env : Env) (parse : Parse) (repo : UserRepository) where
  unfoldable pub count_users : Handler ℕ
  count_users = with_public (λ ctx. serve (Service.count_users repo) (λ n. n) (λ e. failed e))

  unfoldable pub delete_user : (String → Uuid) → String → Handler Done
  delete_user read_uuid = with_auth env parse (
      with_user read_uuid (λ user. serve (Service.delete_user repo user) (λ _. tt) (λ e. failed e)))

  unfoldable pub login :
      TokenValidator
      → (Uuid → String → Time → Result String)
      → Time
      → String
      → Option String
      → Handler (String × PbUser)
  login validator sign now google_token username ctx =
      serve (Service.login repo validator sign now google_token username) login_response
        refuse_login
