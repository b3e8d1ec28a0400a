-- ===== src/Service/Auth/Tokens.antt =====
-- Who gets a session token.
use wcwcpp_backend.Base.{◌≡◌, ◌+◌, String, Option, arith}
use mathlib.Core.Path.{subst}
use wcwcpp_backend.Entity.{Uuid, Time, User}
use wcwcpp_backend.Sql.{World, Result, ok, err, Error, on_error, pure, fail}
use wcwcpp_backend.Sql.Laws.{>>=-eq-ok}
use wcwcpp_backend.Ports.{UserRepository, TokenValidator}
use wcwcpp_backend.Service.Contest.{from_result}
use wcwcpp_backend.Service.Auth.{login, token_life}

-- A result that is wrapped and runs to a value is that value.
from_result-eq-ok :
    {A : Type 0} (f : Error → Error) (r : Result A) (w : World) {w' : World} {a : A}
    → on_error f (from_result r) w ≡ (ok a, w')
    → r ≡ ok a
unfolding on_error pure fail
from_result-eq-ok f (ok b) w e = ground (arith, e)
from_result-eq-ok f (err x) w e = absurd (ground (arith, e))

pure-eq-ok : {A : Type 0} {a b : A} (w : World) {w' : World} → pure a w ≡ (ok b, w') → a ≡ b
unfolding pure
pure-eq-ok w e = ground (arith, e)

-- A login that succeeds gives a token only for a Google token that the validator accepts; the token
-- is signed for the user that it returns, to expire seven days from now.
pub login-validated :
    (repo : UserRepository) (validator : TokenValidator)
    (sign : Uuid → String → Time → Result String) (now : Time) (google_token : String)
    (username : Option String) (w : World) {w' : World} {token : String} {user : User}
    → login repo validator sign now google_token username w ≡ (ok (token, user), w')
    → ((email : String) × (validator.validate_google_token google_token ≡ ok email))
      × (sign user.id user.email (now + token_life) ≡ ok token)
unfolding login
login-validated repo validator sign now google_token username w {w'} {token} {user} e =
    let (email, v, valid, e1) = >>=-eq-ok _ _ e in
    let (found, v1, looked, e2) = >>=-eq-ok _ _ e1 in
    let (u, v2, there, e3) = >>=-eq-ok _ _ e2 in
    let (t, v3, signed, e4) = >>=-eq-ok _ _ e3 in
    (
      (email, from_result-eq-ok _ _ w valid),
      subst (λ p. sign p.1.id p.1.email (now + token_life) ≡ ok p.0) (pure-eq-ok v3 e4)
          (from_result-eq-ok _ (sign u.id u.email (now + token_life)) v2 signed),
    )
