-- ===== src/Api/Client/Retrying.antt =====
-- Every way in which one call of `apiFetch` (web/src/shared/api/client.ts) can go.
use linktheca.Prelude.{
  String, ◌≡◌, refl, ◌∙◌, ap, inl, inr, ◌==◌, nat_eq, if◌then◌else◌, true, false, Bool-cases,
  Option, none, some, ◌∷◌, arith, truthy, Option-cases,
}
use linktheca.Web.Json.{Json}
use linktheca.Web.Http.{RequestInit, Response, is_ok, api, Reply, failed, response, Host}
use linktheca.Web.App.{World, App, Result, err, ◌>>=◌, ◌>>◌, received, get_storage, throw, app}
use linktheca.Web.App.Laws.{then-ok, then-err}
use linktheca.Auth.Storage.{Storage, read_refresh_token, clear_refresh_token}
use linktheca.Auth.Store.{clear_session}
use linktheca.Auth.Schemas.{AuthResponse}
use linktheca.Api.Client.{
  request, refresh_request, install, session_expired, error_of, refresh_session, result_of,
  may_refresh, settle, attempt, api_fetch, api_fetch_retry,
}
use linktheca.Api.Client.Refreshing.{
  stored, Refreshed, Expired, refresh_session_cases, refresh_session_accepted,
  refresh_session_refused,
}

result_of-world : (res : Response) (w : World) → (result_of res w).1 ≡ w
unfolding result_of app
result_of-world res w = ground arith

pub may_refresh-stored :
    (path : String) (res : Response) (s : Storage)
    → may_refresh path res s ≡ true
    → (token : String) × (truthy (read_refresh_token s) ≡ some token)
unfolding may_refresh
may_refresh-stored path res s m = elim (Option-cases (truthy (read_refresh_token s))) [
  | inl gone ↦ absurd (ground arith)
  | inr found ↦ found
]

module _ (h : Host) (path : String) (init : RequestInit) where
  -- The world when the request has gone out.
  abbrev pub after_request : World → World
  after_request w = record w { sent = request w.auth.access_token path init ∷ w.sent }

  pub attempt-received :
      (again : Option (App (Option Json))) (w : World)
      → attempt h again path init w
        ≡ (received (h.server w.sent (request w.auth.access_token path init))
              >>= settle h again path)
            (after_request w)
  unfolding attempt app
  attempt-received again w = refl

  pub settle-none-world : (res : Response) (w : World) → (settle h none path res w).1 ≡ w
  unfolding settle app
  settle-none-world res w = ground (arith, result_of-world res w)

  received-world : (reply : Reply) (w : World) → ((received reply >>= settle h none path) w).1 ≡ w
  unfolding app
  received-world failed w = refl
  received-world (response res) w = settle-none-world res w

  -- The second try sends one request with the token of the moment, and changes nothing else.
  pub api_fetch_retry-world : (w : World) → (api_fetch_retry h path init w).1 ≡ after_request w
  unfolding api_fetch_retry app
  api_fetch_retry-world w =
      rw attempt-received
        (received-world (h.server w.sent (request w.auth.access_token path init)) (after_request w))

  pub api_fetch_retry_refused :
      (w : World) (res : Response)
      → h.server w.sent (request w.auth.access_token path init) ≡ response res
      → is_ok res ≡ false
      → api_fetch_retry h path init w ≡ (err (api (error_of h res)), after_request w)
  unfolding api_fetch_retry settle app
  api_fetch_retry_refused w res a bad = rw attempt-received (rw a (rw bad))

  -- How a call of `api_fetch` in `w` that ends in `r` can have gone.
  pub data Course (w : World) (r : Result (Option Json) × World) : Type 0 where
    single : r.1 ≡ after_request w → Course w r
    expired :
        (token : String)
        → stored w ≡ some token
        → r.0 ≡ err session_expired
        → Expired token (after_request w) r.1
        → Course w r
    repeated :
        (token : String)
        → stored w ≡ some token
        → (v : World) → Refreshed h token (after_request w) v
        → r ≡ api_fetch_retry h path init v
        → Course w r

  module _ (w : World) where
    abbrev retry : App (Option Json)
    retry = api_fetch_retry h path init

    abbrev sent_once : World
    sent_once = after_request w

    refreshing-Course :
        (token : String) → stored w ≡ some token → Course w ((refresh_session h >> retry) sent_once)
    refreshing-Course token e = elim (refresh_session_cases h sent_once token e) [
      | inl (done, r) ↦
          repeated token e _ r (
            then-ok (refresh_session h) retry (ap (λ x. (x, (refresh_session h sent_once).1)) done))
      | inr (lost, x) ↦
          let stop =
            then-err (refresh_session h) retry
              (ap (λ x. (x, (refresh_session h sent_once).1)) lost) in
          expired token e (ap (λ r. r.0) stop) (rw stop x)
    ]

    settle_some-Course : (res : Response) → Course w (settle h (some retry) path res sent_once)
    unfolding settle get_storage throw ◌>>=◌
    settle_some-Course res = elim (Bool-cases (is_ok res)) [
      | inl good ↦ rw good (single (result_of-world res sent_once))
      | inr bad ↦ elim (Bool-cases (may_refresh path res w.storage)) [
        | inl again ↦
            let (token, e) = may_refresh-stored path res w.storage again in
            rw bad (rw again (refreshing-Course token e))
        | inr final ↦ rw bad (rw final (single refl))
      ]
    ]

  received-Course :
      (reply : Reply) (w : World)
      → Course w (
          (received reply >>= settle h (some (api_fetch_retry h path init)) path) (after_request w))
  unfolding app
  received-Course failed w = single refl
  received-Course (response res) w = settle_some-Course w res

  pub api_fetch-Course : (w : World) → Course w (api_fetch h path init w)
  unfolding api_fetch
  api_fetch-Course w = rw attempt-received (received-Course _ w)

  -- A first answer that lets the call refresh: what follows is the refresh and the second try.
  module _ (w : World) (res : Response)
      (answered : h.server w.sent (request w.auth.access_token path init) ≡ response res)
      (refused : is_ok res ≡ false) (renews : may_refresh path res w.storage ≡ true) where
    api_fetch_renewing :
        api_fetch h path init w
        ≡ (refresh_session h >> api_fetch_retry h path init) (after_request w)
    unfolding api_fetch settle app
    api_fetch_renewing = rw attempt-received (rw answered (rw refused (rw renews)))

    -- If the first answer is an error that allows a refresh, and the refresh is answered with a
    -- valid pair of tokens, then apiFetch is its own second try, made in the world in which the new
    -- session and refresh token are installed.
    pub api_fetch_renewed :
        (token : String) (answer : Response) (body : Json) (p : AuthResponse)
        → stored w ≡ some token
        → h.server (after_request w).sent (refresh_request token) ≡ response answer
        → is_ok answer ≡ true
        → answer.json ≡ some body
        → h.parse_auth_response body ≡ some p
        → api_fetch h path init w
          ≡ api_fetch_retry h path init
              (install p (record (after_request w) {
                sent = refresh_request token ∷ (after_request w).sent;
              })).1
    api_fetch_renewed token answer body p e a good j fits =
        api_fetch_renewing
        ∙ then-ok (refresh_session h) (api_fetch_retry h path init)
            (refresh_session_accepted h (after_request w) token e answer body p a good j fits)

    -- If the first answer is an error that allows a refresh, and the refresh is answered with an
    -- error, then apiFetch throws session_expired after two requests, with the session cleared, and
    -- with the refresh token cleared exactly if the refresh was answered 401.
    pub api_fetch_refused :
        (token : String) (answer : Response)
        → stored w ≡ some token
        → h.server (after_request w).sent (refresh_request token) ≡ response answer
        → is_ok answer ≡ false
        → api_fetch h path init w ≡ (
          err session_expired,
          record w {
            sent = refresh_request token ∷ (after_request w).sent;
            auth = clear_session w.auth;
            storage = if answer.status == 401 then clear_refresh_token w.storage else w.storage;
          },
        )
    api_fetch_refused token answer e a bad =
        api_fetch_renewing
        ∙ then-err (refresh_session h) (api_fetch_retry h path init)
            (refresh_session_refused h (after_request w) token e answer a bad)
