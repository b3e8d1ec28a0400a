-- ===== src/Tests/Sessions.antt =====
-- Logins.
use wcwcpp_backend.Base.{◌+◌, ◌≡◌, refl, String, none, some, ◌==◌, string_eq, if◌then◌else◌}
use wcwcpp_backend.Entity.{Uuid, Time, User}
use wcwcpp_backend.Sql.{Result, ok, err, message, monad, pure, fail}
use wcwcpp_backend.Ports.{UserRepository, TokenValidator}
use wcwcpp_backend.Service.Auth.{login, register, token_life}
use wcwcpp_backend.Service.Auth.Tokens.{login-validated}
use wcwcpp_backend.Tests.Data.{world}

abbrev ann : User
ann = record { id = 5; email = "ann@mail"; username = "ann" }

-- Ann is registered; nobody else is.
abbrev user_repository : UserRepository
user_repository = record {
  find_by_email = λ email. pure (if email == "ann@mail" then some ann else none);
  create_user = λ email name. pure (record { id = 6; email = email; username = name });
  count_users = pure 1;
  delete_user = λ user. fail (message "user not found");
}

abbrev validator : TokenValidator
validator = record {
  validate_google_token =
      λ token. if token == "good" then ok "ann@mail" else err (message "bad token");
}

abbrev sign : Uuid → String → Time → Result String
sign user email until = ok email

login-validated_example :
    ((email : String) × (validator.validate_google_token "good" ≡ ok email))
    × (sign 5 "ann@mail" (100 + token_life) ≡ ok "ann@mail")
unfolding monad login register
login-validated_example =
    login-validated user_repository validator sign 100 "good" none world {w' = world}
      {token = "ann@mail"} {user = ann} refl
