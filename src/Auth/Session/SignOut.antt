-- ===== src/Auth/Session/SignOut.antt =====
-- What `useLogout` of web/src/features/auth/use-logout.ts leaves behind, whatever the server says.
use linktheca.Prelude.{
  String, ◌≡◌, refl, ◌∙◌, ap, true, Option, none, some, List, ◌∷◌, arith, nat_eq, string_eq,
}
use linktheca.Web.Json.{Json}
use linktheca.Web.Http.{Host, RequestInit, Response, is_ok, response}
use linktheca.Web.App.{
  World, Result, ok, err, Effect, pure, handle, continue, app, toast_success, navigate,
  clear_queries,
}
use linktheca.Auth.Storage.{Storage, read_refresh_token, clear_refresh_token}
use linktheca.Auth.Store.{anonymous, set_session, clear_session}
use linktheca.Auth.Schemas.{AuthResponse}
use linktheca.Api.Client.{request, refresh_request, install, api_fetch}
use linktheca.Api.Client.Refreshing.{stored}
use linktheca.Api.Client.Retrying.{
  after_request, api_fetch_retry-world, Course, single, expired, repeated, api_fetch-Course,
  api_fetch_renewed,
}
use linktheca.Auth.Session.SignIn.{is_ok_of_401, may_refresh_of_401}
use linktheca.Auth.Session.{logout_init, logout, use_logout}

ignored : (r : Result (Unit {0}) × World) → handle (λ _. pure tt) r ≡ (ok tt, r.1)
unfolding pure
ignored (ok a, w) = refl
ignored (err e, w) = refl

dropped : (r : Result (Option Json) × World) → (continue {B = Unit {0}} (λ _. pure tt) r).1 ≡ r.1
unfolding pure
dropped (ok a, w) = refl
dropped (err e, w) = refl

abbrev farewell : List Effect → List Effect
farewell before = navigate "/login" true ∷ toast_success "Signed out" ∷ clear_queries ∷ before

read-clear : (s : Storage) → read_refresh_token (clear_refresh_token s) ≡ none
unfolding read_refresh_token clear_refresh_token
read-clear s = ground arith

module _ (h : Host) (w : World) where
  abbrev pub body : RequestInit
  body = logout_init (read_refresh_token w.storage)

  logout-world : (logout h none w).1 ≡ (api_fetch h "/auth/logout" body w).1
  unfolding logout app
  logout-world = dropped (api_fetch h "/auth/logout" body w)

  Course-effects :
      (r : Result (Option Json) × World)
      → Course h "/auth/logout" body w r
      → r.1.effects ≡ w.effects
  Course-effects r (single e) = ap (λ x. x.effects) e
  Course-effects r (expired _ _ _ x) = x.effects
  Course-effects r (repeated _ _ v f q) =
      ap (λ x. x.1.effects) q
      ∙ ap (λ x. x.effects) (api_fetch_retry-world h "/auth/logout" body v)
      ∙ f.effects

  -- The world after the server has been asked to revoke the token.
  abbrev asked : World
  asked = (api_fetch h "/auth/logout" body w).1

  use_logout-asked : use_logout h w ≡ (
    ok tt,
    record {
      storage = clear_refresh_token asked.storage;
      auth = clear_session asked.auth;
      sent = asked.sent;
      effects = farewell asked.effects;
    },
  )
  unfolding use_logout app
  use_logout-asked = rw ignored (rw logout-world)

  -- Signed out, no token left to read, the caches emptied and the sign-in page shown.
  pub record SignedOut (w' : World) : Type 0 where
    pub access_token : w'.auth.access_token ≡ none
    pub user : w'.auth.user ≡ none
    pub status : w'.auth.status ≡ anonymous
    pub storage : read_refresh_token w'.storage ≡ none
    pub effects : w'.effects ≡ farewell w.effects

  -- Whatever the server answers, signing out returns normally, leaves no access token, user or
  -- readable refresh token and the status anonymous, and empties the query cache, reports success
  -- and shows the sign-in page, in this order and once each.
  pub use_logout-SignedOut : ((use_logout h w).0 ≡ ok tt) × SignedOut (use_logout h w).1
  unfolding clear_session
  use_logout-SignedOut = rw use_logout-asked (
    refl,
    record {
      access_token = refl;
      user = refl;
      status = refl;
      storage = read-clear asked.storage;
      effects = ap farewell (Course-effects _ (api_fetch-Course h "/auth/logout" body w));
    },
  )

  -- The access token has run out: the server answers 401, and then renews the pair of tokens.
  module _ (token : String) (first answer : Response) (json : Json) (p : AuthResponse)
      (e : stored w ≡ some token)
      (a : h.server w.sent (request w.auth.access_token "/auth/logout" body) ≡ response first)
      (unauthorized : first.status ≡ 401)
      (b : h.server (after_request h "/auth/logout" body w).sent (refresh_request token)
        ≡ response answer)
      (good : is_ok answer ≡ true) (j : answer.json ≡ some json)
      (fits : h.parse_auth_response json ≡ some p) where
    -- If signing out is answered 401 and the refresh with a valid session, the repeated sign-out
    -- carries the new access token but in its body the refresh token that was stored before.
    pub use_logout_sends_old_token :
        (use_logout h w).1.sent
        ≡ request (some p.tokens.access_token) "/auth/logout" body
          ∷ refresh_request token
          ∷ request w.auth.access_token "/auth/logout" body
          ∷ w.sent
    unfolding install app set_session
    use_logout_sends_old_token =
        ap (λ r. r.1.sent) use_logout-asked
        ∙ ap (λ r. r.1.sent)
            (api_fetch_renewed h "/auth/logout" body w first a (is_ok_of_401 first unauthorized)
              (may_refresh_of_401 "/auth/logout" first w.storage token unauthorized refl e) token
              answer json p e b good j fits)
        ∙ ap (λ v. v.sent) (api_fetch_retry-world h "/auth/logout" body _)
