-- ===== src/Handler/Picks/Locked.antt =====
-- What the handler answers outside the window for picks.
use wcwcpp_backend.Base.{◌≡◌, ◌≢◌, refl, ap, ◌∙◌, String, Option, none, some, List}
use wcwcpp_backend.Entity.{Uuid, Time, Contest, GroupPick}
use wcwcpp_backend.Sql.{World, Result, ok, err, message, Error, Action}
use wcwcpp_backend.Ports.{PicksRepository}
use wcwcpp_backend.Handler.{
  Context, Answer, Handler, response, refused, unauthenticated, failed_precondition, serve,
  error_text,
}
use wcwcpp_backend.Handler.Messages.{PbGroupPick}
use wcwcpp_backend.Handler.Interceptor.{
  Env, Parse, with_auth, with_user, validate_auth_header, signed_in,
}
use wcwcpp_backend.Handler.Picks.{
  create_group_picks, proto_to_group_picks, refuse_group_picks, or_panic,
}
use wcwcpp_backend.Service.Picks as Service
use wcwcpp_backend.Service.Picks.Locks.{Outside, create_group_picks-locked as service-locked}

serve-err :
    {A B : Type 0} (call : Action A) (reply : A → B) (refuse : Error → Answer B) {e : Error}
    {w v : World}
    → call w ≡ (err e, v)
    → serve call reply refuse w ≡ (refuse e, v)
unfolding serve
serve-err {A} {B} call reply refuse h =
    ap
      (λ (r : Result A × World). elim r.0 as (λ _. Answer B × World) [
        | ok a ↦ (response (reply a), r.1)
        | err e ↦ (refuse e, r.1)
      ])
      h

with_auth-passed :
    {B : Type 0} (env : Env) (parse : Parse) (next : Handler B) (header : String)
    {user email : String} (ctx : Context) (w : World)
    → validate_auth_header env parse header ≡ ok (user, email)
    → with_auth env parse next header ctx w ≡ next (signed_in user email ctx) w
unfolding with_auth
with_auth-passed {B} env parse next header ctx w h =
    ap
      (λ (r : Result (String × String)). elim r as (λ _. Answer B × World) [
        | err e ↦ (refused unauthenticated (some e), w)
        | ok (user, email) ↦ next (signed_in user email ctx) w
      ])
      h

-- Outside the contest's window for group picks, the well-formed picks of a signed-in user are
-- refused as a failed precondition that says so, and nothing happens after the contest is looked up.
pub refuse_group_picks-locked :
    (env : Env) (parse : Parse) (read_uuid : String → Uuid) (repo : PicksRepository) (now : Time)
    (slug : String) (picks : List PbGroupPick) (header user email : String) (ctx : Context)
    (contest : Contest) (w v : World)
    → validate_auth_header env parse header ≡ ok (user, email)
    → proto_to_group_picks picks ≢ none
    → repo.get_contest_by_slug slug w ≡ (ok (some contest), v)
    → Outside contest.group_unlock_date contest.group_lock_date now
    → create_group_picks env parse read_uuid repo now slug picks header ctx w
      ≡ (refused failed_precondition (some (message "group stage picks are locked")), v)
unfolding create_group_picks with_user refuse_group_picks error_text
refuse_group_picks-locked env parse read_uuid repo now slug picks header user email ctx contest w v
      passes follows found locked =
    with_auth-passed env parse _ header ctx w passes ∙ go (proto_to_group_picks picks) follows
  where
    go :
        (o : Option (List GroupPick))
        → o ≢ none
        → or_panic o
            (λ made.
              serve
                (Service.create_group_picks repo now (read_uuid user) slug made)
                (λ _. tt)
                refuse_group_picks)
            w
          ≡ (refused failed_precondition (some (message "group stage picks are locked")), v)
    go none n = absurd (n refl)
    go (some made) n =
        serve-err _ (λ _. tt) refuse_group_picks
          (service-locked repo now (read_uuid user) slug contest found made locked)
