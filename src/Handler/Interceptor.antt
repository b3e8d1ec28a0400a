-- ===== src/Handler/Interceptor.antt =====
-- adapters/interceptor/auth.go. `Env` holds what `os.Getenv` gives, and `parse` stands for
-- `jwt.Parse`, which asks the key function with whether the token's method is HMAC.
pub mod Genuine
use wcwcpp_backend.Base.{
  String, Bool, true, false, Option, none, some, List, [], ◌∷◌, ◌==◌, ◌||◌, not, string_eq,
  if◌then◌else◌,
}
use wcwcpp_backend.Base.Texts.{split, trim_space, lower_is}
use wcwcpp_backend.Sql.{Result, ok, err, Error, message, World}
use wcwcpp_backend.Handler.{Context, Answer, refused, unauthenticated, permission_denied, Handler}

pub record Env : Type 0 where
  pub jwt_secret : String
  pub superadmin_emails : String

-- A token that does not parse or is not valid, one with claims of another type, and one with
-- claims, of which two are texts or are not.
pub data Token : Type 0 where
  not_valid : Token
  other_claims : Token
  map_claims : Option String → Option String → Token

abbrev pub Parse : Type 0
Parse = (Bool → Option String) → String → Token

-- The key function.
abbrev pub key_of : String → Bool → Option String
key_of secret is_hmac = if is_hmac then some secret else none

-- `s, _ := claims[key].(string)`.
abbrev pub text_or_empty : Option String → String
text_or_empty none = ""
text_or_empty (some s) = s

abbrev pub user_details : String → String → Result (String × String)
user_details user email =
    if user == "" || email == ""
    then err (message "missing user details in token")
    else ok (user, email)

abbrev pub claims_of : Token → Result (String × String)
claims_of (not_valid) = err (message "invalid token")
claims_of (other_claims) = err (message "invalid token claims")
claims_of (map_claims sub email) = user_details (text_or_empty sub) (text_or_empty email)

-- Exactly two parts, of which the first is the scheme.
abbrev pub bearer_token : List String → Option String
bearer_token [] = none
bearer_token (scheme ∷ []) = none
bearer_token (scheme ∷ token ∷ []) = if lower_is scheme "bearer" then some token else none
bearer_token (scheme ∷ token ∷ part ∷ parts) = none

abbrev pub is_among : String → List String → Bool
is_among email [] = false
is_among email (admin ∷ admins) = trim_space admin == email || is_among email admins

unfoldable pub is_superadmin : Env → String → Bool
is_superadmin env email =
    if env.superadmin_emails == "" then false else is_among email (split 44 env.superadmin_emails)

abbrev pub signed_in : String → String → Context → Context
signed_in user email ctx = record ctx { user_id = some user; email = some email }

module _ (env : Env) (parse : Parse) where
  abbrev pub read_token : Option String → Result (String × String)
  read_token none = err (message "invalid authorization header format")
  read_token (some token) =
      if env.jwt_secret == ""
      then err (message "JWT_SECRET environment variable is not configured")
      else claims_of (parse (key_of env.jwt_secret) token)

  unfoldable pub validate_auth_header : String → Result (String × String)
  validate_auth_header header =
      if header == ""
      then err (message "missing authorization header")
      else read_token (bearer_token (split 32 header))

  unfoldable pub with_auth : {B : Type 0} → Handler B → String → Handler B
  with_auth next header ctx w = elim (validate_auth_header header) [
    | err e ↦ (refused unauthenticated (some e), w)
    | ok (user, email) ↦ next (signed_in user email ctx) w
  ]

  unfoldable pub with_superadmin : {B : Type 0} → Handler B → String → Handler B
  with_superadmin next header ctx w = elim (validate_auth_header header) [
    | err e ↦ (refused unauthenticated (some e), w)
    | ok (user, email) ↦
        (if is_superadmin env email then next (signed_in user email ctx) else λ v.
        (refused permission_denied (some (message "superadmin access required")), v))
          w
  ]

-- `WithPublic`.
unfoldable pub with_public : {B : Type 0} → Handler B → Handler B
with_public next = next

-- `userID, ok := GetUserID(ctx)`, and what the handlers do without one. `read_uuid` gives the
-- identifier that a text is; the texts come from tokens that the program has signed.
unfoldable pub with_user :
    {B : Type 0} {U : Type 0} → (String → U) → (U → World → Answer B × World) → Handler B
with_user read_uuid next ctx w = elim ctx.user_id [
  | none ↦ (refused unauthenticated none, w)
  | some id ↦ next (read_uuid id) w
]
