-- ===== src/Service/Auth.antt =====
-- `AuthService` of core/service/auth.go, and `UsersService` of core/service/users.go. `sign` stands
-- for the jwt library with the service's secret: it makes a token of the user's identifier and
-- address and of the time at which it expires. Times are in nanoseconds here.
pub mod Tokens
use wcwcpp_backend.Base.{ℕ, ◌+◌, String, Option, none, some, ◌==◌, string_eq, if◌then◌else◌}
use wcwcpp_backend.Entity.{Uuid, Time, User}
use wcwcpp_backend.Sql.{Action, Done, Result, Error, message, wrap, pure, fail, on_error, ◌>>=◌}
use wcwcpp_backend.Ports.{UserRepository, TokenValidator}
use wcwcpp_backend.Service.Contest.{from_result}

-- `ErrUserNotFound`.
abbrev pub user_not_found : Error
user_not_found = message "user not found, username required for registration"

-- Seven days.
abbrev pub token_life : Time
token_life = 604800000000000

module _ (repo : UserRepository) where
  unfoldable pub register : String → Option String → Action User
  register email none = fail user_not_found
  register email (some name) =
      if name == ""
      then fail user_not_found
      else on_error (wrap "failed to create user") (repo.create_user email name)

  -- `if user == nil { … }`.
  abbrev pub or_register : String → Option String → Option User → Action User
  or_register email username (some user) = pure user
  or_register email username none = register email username

  unfoldable pub login :
      TokenValidator
      → (Uuid → String → Time → Result String)
      → Time
      → String
      → Option String
      → Action (String × User)
  login validator sign now google_token username = do
    email ←
        on_error (wrap "invalid google token")
          (from_result (validator.validate_google_token google_token))
    found ← on_error (wrap "failed to check existing user") (repo.find_by_email email)
    user ← or_register email username found
    token ←
        on_error (wrap "failed to generate session token")
          (from_result (sign user.id user.email (now + token_life)))
    pure (token, user)

  unfoldable pub count_users : Action ℕ
  count_users = repo.count_users

  unfoldable pub delete_user : Uuid → Action Done
  delete_user user = repo.delete_user user
