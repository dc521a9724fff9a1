-- ===== src/Auth/Session/SignIn.antt =====
-- What `login` and `register` of web/src/features/auth/api.ts do with the answers they get.
use linktheca.Prelude.{
  String, ◌≡◌, ◌≢◌, refl, ◌∙◌, ap, true, false, some, ◌∷◌, arith, ◌==◌, nat_eq, string_eq, truthy,
}
use linktheca.Web.Json.{Json}
use linktheca.Web.Http.{Host, RequestInit, Response, is_ok, api, response}
use linktheca.Web.App.{World, ok, err, app}
use linktheca.Web.App.Laws.{bind-ok, bind-err}
use linktheca.Auth.Storage.{Storage, read_refresh_token}
use linktheca.Auth.Store.{set_session}
use linktheca.Auth.Schemas.{AuthResponse, map_user}
use linktheca.Api.Client.{
  request, refresh_request, install, or_throw, error_of, may_refresh, refresh_path, api_fetch,
}
use linktheca.Api.Client.Refreshing.{stored}
use linktheca.Api.Client.Retrying.{after_request, api_fetch_renewed, api_fetch_retry_refused}
use linktheca.Api.Client.Requests.{api_fetch_answered, outcome}
use linktheca.Auth.Session.{
  LoginInput, RegisterInput, login_init, register_init, consume_auth_response, login, register,
}

may_refresh_of_ok :
    (path : String) (res : Response) (s : Storage)
    → is_ok res ≡ true
    → may_refresh path res s ≡ false
unfolding is_ok may_refresh
may_refresh_of_ok path res s h = ground arith

pub is_ok_of_401 : (res : Response) → res.status ≡ 401 → is_ok res ≡ false
unfolding is_ok
is_ok_of_401 res e = ground arith

pub may_refresh_of_401 :
    (path : String) (res : Response) (s : Storage) (token : String)
    → res.status ≡ 401
    → (path == refresh_path) ≡ false
    → truthy (read_refresh_token s) ≡ some token
    → may_refresh path res s ≡ true
unfolding may_refresh
may_refresh_of_401 path res s token e other found = rw (e, other) (rw found)

login_path_ne : (◌==◌ {T = String} "/auth/login" refresh_path) ≡ false
login_path_ne = refl

outcome_of_ok :
    (h : Host) (path : String) (init : RequestInit) (w : World) (res : Response) (body : Json)
    → is_ok res ≡ true
    → res.status ≢ 204
    → res.json ≡ some body
    → outcome h path init w res ≡ ok (some body)
outcome_of_ok h path init w res body good more j = rw good (ground arith)

consume_accepted :
    (h : Host) (body : Json) (p : AuthResponse) (w : World)
    → h.parse_auth_response body ≡ some p
    → consume_auth_response h (some body) w ≡ (ok (map_user p.user), (install p w).1)
unfolding consume_auth_response or_throw install app
consume_accepted h body p w fits = rw (fits, or_throw)

module _ (h : Host) (w : World) (res : Response) (body : Json) (p : AuthResponse)
    (good : is_ok res ≡ true) (more : res.status ≢ 204) (j : res.json ≡ some body)
    (fits : h.parse_auth_response body ≡ some p) where
  fetched :
      (path : String) (init : RequestInit)
      → h.server w.sent (request w.auth.access_token path init) ≡ response res
      → api_fetch h path init w ≡ (ok (some body), after_request h path init w)
  fetched path init a =
      api_fetch_answered h path init w res a (may_refresh_of_ok path res w.storage good)
      ∙ ap (λ r. (r, after_request h path init w))
          (outcome_of_ok h path init w res body good more j)

  -- If the server answers the sign-in with success, JSON, and a valid session, login returns its
  -- user and leaves the world after that one request with the session and the refresh token
  -- installed.
  pub login_accepted :
      (input : LoginInput)
      → h.server w.sent (request w.auth.access_token "/auth/login" (login_init input))
        ≡ response res
      → login h input w
        ≡ (ok (map_user p.user), (install p (after_request h "/auth/login" (login_init input) w)).1)
  unfolding login
  login_accepted input a =
      bind-ok (api_fetch h _ _) _ (fetched "/auth/login" (login_init input) a)
      ∙ consume_accepted h body p _ fits

  register_accepted :
      (input : RegisterInput)
      → h.server w.sent (request w.auth.access_token "/auth/register" (register_init input))
        ≡ response res
      → register h input w ≡ (
        ok (map_user p.user),
        (install p (after_request h "/auth/register" (register_init input) w)).1,
      )
  unfolding register
  register_accepted input a =
      bind-ok (api_fetch h _ _) _ (fetched "/auth/register" (register_init input) a)
      ∙ consume_accepted h body p _ fits

-- A rejected password, while an old refresh token is still stored.
module _ (h : Host) (input : LoginInput) (w : World) (token : String) (first answer last : Response)
    (body : Json) (p : AuthResponse) where
  abbrev login_path : String
  login_path = "/auth/login"

  -- The world in which the password is tried again.
  abbrev pub renewed : World
  renewed =
      (install p (record w {
        sent = refresh_request token ∷ (after_request h login_path (login_init input) w).sent;
      })).1

  -- If a refresh token is stored, the sign-in is answered 401, the refresh with a valid session,
  -- and the repeated sign-in with an error, then login throws that error and leaves the user of the
  -- refreshed session signed in.
  pub login_signs_in_old_user :
      stored w ≡ some token
      → h.server w.sent (request w.auth.access_token login_path (login_init input)) ≡ response first
      → first.status ≡ 401
      → h.server (after_request h login_path (login_init input) w).sent (refresh_request token)
        ≡ response answer
      → is_ok answer ≡ true
      → answer.json ≡ some body
      → h.parse_auth_response body ≡ some p
      → h.server renewed.sent (request renewed.auth.access_token login_path (login_init input))
        ≡ response last
      → is_ok last ≡ false
      → ((login h input w).0 ≡ err (api (error_of h last)))
        × ((login h input w).1.auth ≡ set_session p.tokens.access_token (map_user p.user) w.auth)
  unfolding login install app
  login_signs_in_old_user e a unauthorized b good j fits c bad =
      let whole = bind-err (api_fetch h login_path (login_init input)) (consume_auth_response h) (
        api_fetch_renewed h login_path (login_init input) w first a
          (is_ok_of_401 first unauthorized)
          (may_refresh_of_401 login_path first w.storage token unauthorized login_path_ne e) token
          answer body p e b good j fits
        ∙ api_fetch_retry_refused h login_path (login_init input) renewed last c bad) in
      (ap (λ r. r.0) whole, ap (λ r. r.1.auth) whole)
