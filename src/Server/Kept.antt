-- ===== src/Server/Kept.antt =====
-- What every request keeps.
use wcwcpp_backend.Base.{String, Option, none, some, string_eq, if_elim, if◌then◌else◌}
use wcwcpp_backend.Rows.{Db}
use wcwcpp_backend.Sql.{World, Action, Result, ok, err, Error, no_rows, message}
use wcwcpp_backend.Sql.Laws.{query_one-Reads}
use wcwcpp_backend.Sql.Keeps.{Keeps, bind-Keeps, Reads-Keeps, or_fail-Keeps, pure-Keeps, fail-Keeps}
use wcwcpp_backend.Handler.{
  Context, Answer, Handler, serve, response, refused, permission_denied, unauthenticated,
}
use wcwcpp_backend.Handler.Interceptor.{
  Env, Parse, with_auth, with_superadmin, with_user, validate_auth_header, is_superadmin, signed_in,
}
use wcwcpp_backend.Handler.Picks.{or_panic}
use wcwcpp_backend.Storage.Search.{absent_if_no_rows, get_contest_by_slug, get_subcontest_by_slug}
use wcwcpp_backend.Storage.Users.{find_by_email}
use wcwcpp_backend.Storage.Contests.{get_subcontest_by_join_code}
use wcwcpp_backend.Service.Picks.{the_contest}
use wcwcpp_backend.Service.Contest.{from_result}

absent-Keeps :
    {A B : Type 0} (P : Db → Type 0) (f : A → B) {m : Action A}
    → Keeps P m
    → Keeps P (absent_if_no_rows f m)
absent-Keeps {A} {B} P f {m} h = record { run = λ w p. go (m w) (h.run w p) }
  where
    go :
        (r : Result A × World)
        → P r.1.db
        → P
            (elim r.0 as (λ _. Result (Option B) × World) [
              | ok a ↦ (ok (some (f a)), r.1)
              | err e ↦ (elim e [ no_rows ↦ ok none | x ↦ err x ], r.1)
            ]).1.db
    go (ok a, v) p = p
    go (err e, v) p = p

module _ (P : Db → Type 0) where
  pub get_contest-Keeps : (slug : String) → Keeps P (the_contest (get_contest_by_slug slug))
  unfolding the_contest get_contest_by_slug
  get_contest-Keeps slug =
      bind-Keeps P (absent-Keeps P _ (Reads-Keeps P (query_one-Reads _)))
        λ found. or_fail-Keeps P found _

  pub get_subcontest-Keeps : (slug : String) → Keeps P (get_subcontest_by_slug slug)
  unfolding get_subcontest_by_slug
  get_subcontest-Keeps slug = absent-Keeps P _ (Reads-Keeps P (query_one-Reads _))

  pub get_joined-Keeps : (code : String) → Keeps P (get_subcontest_by_join_code code)
  unfolding get_subcontest_by_join_code
  get_joined-Keeps code = absent-Keeps P _ (Reads-Keeps P (query_one-Reads _))

  pub find_by_email-Keeps : (email : String) → Keeps P (find_by_email email)
  unfolding find_by_email
  find_by_email-Keeps email = absent-Keeps P _ (Reads-Keeps P (query_one-Reads _))

  pub from_result-Keeps : {A : Type 0} (r : Result A) → Keeps P (from_result r)
  from_result-Keeps (ok a) = pure-Keeps P a
  from_result-Keeps (err e) = fail-Keeps P e

  -- The same of a handler.
  abbrev pub Held : {B : Type 0} → (World → Answer B × World) → Type 0
  Held h = (w : World) → P w.db → P (h w).1.db

  pub serve-Held :
      {A B : Type 0} {call : Action A} (reply : A → B) (refuse : Error → Answer B)
      → Keeps P call
      → Held (serve call reply refuse)
  unfolding serve
  serve-Held {A} {B} {call} reply refuse h w p = go (call w) (h.run w p)
    where
      go :
          (r : Result A × World)
          → P r.1.db
          → P
              (elim r.0 as (λ _. Answer B × World) [
                | ok a ↦ (response (reply a), r.1)
                | err e ↦ (refuse e, r.1)
              ]).1.db
      go (ok a, v) q = q
      go (err e, v) q = q

  pub or_panic-Held :
      {A B : Type 0} (o : Option A) (next : A → World → Answer B × World)
      → ((a : A) → Held (next a))
      → Held (or_panic o next)
  or_panic-Held none next h w p = p
  or_panic-Held (some a) next h w p = h a w p

  module _ (env : Env) (parse : Parse) where
    pub with_auth-Held :
        {B : Type 0} (next : Handler B) (header : String) (ctx : Context)
        → ((c : Context) → Held (next c))
        → Held (with_auth env parse next header ctx)
    unfolding with_auth
    with_auth-Held {B} next header ctx h w p = go (validate_auth_header env parse header)
      where
        go :
            (r : Result (String × String))
            → P
                (elim r as (λ _. Answer B × World) [
                  | err e ↦ (refused unauthenticated (some e), w)
                  | ok (user, email) ↦ next (signed_in user email ctx) w
                ]).1.db
        go (err e) = p
        go (ok (user, email)) = h _ w p

    pub with_superadmin-Held :
        {B : Type 0} (next : Handler B) (header : String) (ctx : Context)
        → ((c : Context) → Held (next c))
        → Held (with_superadmin env parse next header ctx)
    unfolding with_superadmin
    with_superadmin-Held {B} next header ctx h w p = go (validate_auth_header env parse header)
      where
        go :
            (r : Result (String × String))
            → P
                (elim r as (λ _. Answer B × World) [
                  | err e ↦ (refused unauthenticated (some e), w)
                  | ok (user, email) ↦
                      (if is_superadmin env email then next (signed_in user email ctx) else λ v.
                      (refused permission_denied (some (message "superadmin access required")), v))
                        w
                ]).1.db
        go (err e) = p
        go (ok (user, email)) =
            if_elim (λ (k : World → Answer B × World). P (k w).1.db) (is_superadmin env email) _ _
              (h _ w p) p

  pub with_user-Held :
      {B U : Type 0} (read_uuid : String → U) (next : U → World → Answer B × World) (ctx : Context)
      → ((u : U) → Held (next u))
      → Held (with_user read_uuid next ctx)
  unfolding with_user
  with_user-Held {B} {U} read_uuid next ctx h w p = go ctx.user_id
    where
      go :
          (o : Option String)
          → P
              (elim o as (λ _. Answer B × World) [
                | none ↦ (refused unauthenticated none, w)
                | some id ↦ next (read_uuid id) w
              ]).1.db
      go none = p
      go (some id) = h (read_uuid id) w p
