-- ===== src/Handler/Interceptor/Genuine.antt =====
-- Which headers pass, and what happens to the others.
use wcwcpp_backend.Base.{
  ◌≡◌, refl, arith, ◌⊎◌, inl, inr, String, Bool, true, false, Option, none, some, List, [], ◌∷◌,
  ◌==◌, ==_iff, string_eq, if◌then◌else◌,
}
use wcwcpp_backend.Base.Texts.{split, lower_is}
use wcwcpp_backend.Sql.{World, Result, ok, err, Error, message}
use wcwcpp_backend.Handler.{
  Context, Answer, Code, refused, unauthenticated, permission_denied, Handler,
}
use wcwcpp_backend.Handler.Interceptor.{
  Env, Parse, Token, not_valid, other_claims, map_claims, key_of, claims_of, user_details,
  text_or_empty, bearer_token, read_token, validate_auth_header, is_superadmin, with_auth,
  with_superadmin, signed_in,
}

-- What stands behind a header that passes.
abbrev pub IsGenuine : Env → Parse → String → String → String → Type 0
IsGenuine env parse header user email =
    (scheme : String) × (token : String) × (split 32 header ≡ scheme ∷ token ∷ [])
    × (lower_is scheme "bearer" ≡ true)
    × ((env.jwt_secret == "") ≡ false)
    × (parse (key_of env.jwt_secret) token ≡ map_claims (some user) (some email))
    × ((user == "") ≡ false)
    × ((email == "") ≡ false)

user_details-ok :
    (u e : String) {user email : String}
    → user_details u e ≡ ok (user, email)
    → (u ≡ user) × (e ≡ email) × ((u == "") ≡ false) × ((e == "") ≡ false)
user_details-ok u e h = ground (arith, h)

text-some : (o : Option String) (s : String) → text_or_empty o ≡ s → (s == "") ≡ false → o ≡ some s
text-some none s e n = absurd (let k = (==_iff s "").1 in ground (arith, k, e, n))
text-some (some t) s e n = ground (arith, e)

claims_of-ok :
    (t : Token) {user email : String}
    → claims_of t ≡ ok (user, email)
    → (t ≡ map_claims (some user) (some email)) × ((user == "") ≡ false) × ((email == "") ≡ false)
claims_of-ok (not_valid) h = absurd (cc)
claims_of-ok (other_claims) h = absurd (cc)
claims_of-ok (map_claims s e) {user} {email} h =
    let (a, b, c, d) = user_details-ok (text_or_empty s) (text_or_empty e) h in
    let filled_user : (user == "") ≡ false = rw a at c in
    let filled_email : (email == "") ≡ false = rw b at d in
    (
      rw (text-some s user a filled_user, text-some e email b filled_email) refl,
      filled_user,
      filled_email,
    )

-- A header passes only if it is two parts with a space between, the first of them "bearer" in any
-- case, the second a token that the jwt library accepts under the configured secret, which is not
-- empty, with claims that hold the given user and email, neither of them empty.
pub validate_auth_header-IsGenuine :
    (env : Env) (parse : Parse) (header user email : String)
    → validate_auth_header env parse header ≡ ok (user, email)
    → IsGenuine env parse header user email
unfolding validate_auth_header
validate_auth_header-IsGenuine env parse header user email h =
    parts (split 32 header) refl (ground (arith, h))
  where
    parts :
        (ps : List String)
        → split 32 header ≡ ps
        → read_token env parse (bearer_token ps) ≡ ok (user, email)
        → IsGenuine env parse header user email
    parts [] e k = absurd (cc)
    parts (s ∷ []) e k = absurd (cc)
    parts (s ∷ t ∷ p ∷ ps) e k = absurd (cc)
    parts (s ∷ t ∷ []) e k =
        let bearer : lower_is s "bearer" ≡ true = ground (arith, k) in
        let secret : (env.jwt_secret == "") ≡ false = ground (arith, k) in
        let claims : claims_of (parse (key_of env.jwt_secret) t) ≡ ok (user, email) =
          ground (arith, k) in
        let (token, u, m) = claims_of-ok (parse (key_of env.jwt_secret) t) claims in
        (s, t, e, bearer, secret, token, u, m)

-- The answer to a header that does not pass, and to one of a user who is no superadmin.
abbrev pub IsTurnedAway : {B : Type 0} → Code → World → Answer B × World → Type 0
IsTurnedAway code w (a, w') = (e : Error) × (a ≡ refused code (some e)) × (w' ≡ w)

-- The header of a superadmin.
abbrev pub IsSuperadmin : Env → Parse → String → Type 0
IsSuperadmin env parse header =
    (user : String) × (email : String) × (validate_auth_header env parse header ≡ ok (user, email))
    × (is_superadmin env email ≡ true)

abbrev pub IsSignedIn : Env → Parse → String → Type 0
IsSignedIn env parse header =
    (user : String) × (email : String) × (validate_auth_header env parse header ≡ ok (user, email))

-- An endpoint that lets nobody but superadmins, or nobody but users, through.
abbrev pub ForSuperadmins : {B : Type 0} → Env → Parse → (String → Handler B) → Type 0
ForSuperadmins env parse endpoint =
    (header : String) (ctx : Context) (w : World)
    → IsSuperadmin env parse header
      ⊎ IsTurnedAway unauthenticated w (endpoint header ctx w)
      ⊎ IsTurnedAway permission_denied w (endpoint header ctx w)

abbrev pub ForUsers : {B : Type 0} → Env → Parse → (String → Handler B) → Type 0
ForUsers env parse endpoint =
    (header : String) (ctx : Context) (w : World)
    → IsSignedIn env parse header ⊎ IsTurnedAway unauthenticated w (endpoint header ctx w)

pub with_auth-ForUsers :
    {B : Type 0} (env : Env) (parse : Parse) (next : Handler B)
    → ForUsers env parse (with_auth env parse next)
unfolding with_auth
with_auth-ForUsers {B} env parse next header ctx w = go (validate_auth_header env parse header) refl
  where
    go :
        (r : Result (String × String))
        → validate_auth_header env parse header ≡ r
        → IsSignedIn env parse header
          ⊎ IsTurnedAway unauthenticated w (elim r as (λ _. Answer B × World) [
            | err e ↦ (refused unauthenticated (some e), w)
            | ok (user, email) ↦ next (signed_in user email ctx) w
          ])
    go (err e) h = inr (e, refl, refl)
    go (ok (user, email)) h = inl (user, email, h)

pub with_superadmin-ForSuperadmins :
    {B : Type 0} (env : Env) (parse : Parse) (next : Handler B)
    → ForSuperadmins env parse (with_superadmin env parse next)
unfolding with_superadmin
with_superadmin-ForSuperadmins {B} env parse next header ctx w =
    go (validate_auth_header env parse header) refl
  where
    denied : World → Answer B × World
    denied v = (refused permission_denied (some (message "superadmin access required")), v)

    through :
        (user email : String)
        → validate_auth_header env parse header ≡ ok (user, email)
        → (b : Bool) → is_superadmin env email ≡ b
        → IsSuperadmin env parse header
          ⊎ IsTurnedAway permission_denied w (
              (if b then next (signed_in user email ctx) else λ v.
              (refused permission_denied (some (message "superadmin access required")), v))
                w)
    through user email h true e = inl (user, email, h, e)
    through user email h false e = inr (message "superadmin access required", refl, refl)

    go :
        (r : Result (String × String))
        → validate_auth_header env parse header ≡ r
        → IsSuperadmin env parse header
          ⊎ IsTurnedAway unauthenticated w (elim r as (λ _. Answer B × World) [
            | err e ↦ (refused unauthenticated (some e), w)
            | ok (user, email) ↦
                (if is_superadmin env email then next (signed_in user email ctx) else λ v.
                (refused permission_denied (some (message "superadmin access required")), v))
                  w
          ])
          ⊎ IsTurnedAway permission_denied w (elim r as (λ _. Answer B × World) [
            | err e ↦ (refused unauthenticated (some e), w)
            | ok (user, email) ↦
                (if is_superadmin env email then next (signed_in user email ctx) else λ v.
                (refused permission_denied (some (message "superadmin access required")), v))
                  w
          ])
    go (err e) h = inr (inl (e, refl, refl))
    go (ok (user, email)) h = elim (through user email h (is_superadmin env email) refl) [
      | inl a ↦ inl a
      | inr t ↦ inr (inr t)
    ]
