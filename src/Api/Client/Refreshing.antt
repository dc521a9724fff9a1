-- ===== src/Api/Client/Refreshing.antt =====
-- What `refreshSession` of web/src/shared/api/client.ts leaves behind.
use linktheca.Prelude.{
  String, ◌≡◌, refl, ◌∙◌, ◌⊎◌, true, false, Option, some, ◌∷◌, truthy, inl, inr, ◌==◌, nat_eq,
  if◌then◌else◌, Bool-cases, Option-cases,
}
use linktheca.Web.Json.{Json}
use linktheca.Web.Http.{Host, Reply, failed, response, network_error}
use linktheca.Web.App.{World, Result, ok, err, json, ◌>>=◌, received, get_storage, fetch, pure, app}
use linktheca.Web.App.Laws.{bind-ok}
use linktheca.Auth.Storage.{read_refresh_token, write_refresh_token, clear_refresh_token}
use linktheca.Auth.Store.{set_session, clear_session}
use linktheca.Auth.Schemas.{AuthResponse, map_user}
use linktheca.Web.Http.{Response, is_ok, Thrown, syntax_error, schema_error}
use linktheca.Api.Client.{
  api_error, expire, is_unauthorized, install, accept_refresh, guard, or_throw, perform_refresh,
  session_expired, refresh_request, refresh_session,
}

abbrev pub stored : World → Option String
stored w = truthy (read_refresh_token w.storage)

-- A refresh that worked: one request, the session and the refresh token of a valid answer.
pub record Refreshed (h : Host) (token : String) (w w' : World) : Type 0 where
  pub pair : AuthResponse
  pub body : Json
  pub valid : h.parse_auth_response body ≡ some pair
  pub sent : w'.sent ≡ refresh_request token ∷ w.sent
  pub auth : w'.auth ≡ set_session pair.tokens.access_token (map_user pair.user) w.auth
  pub storage : w'.storage ≡ write_refresh_token pair.tokens.refresh_token w.storage
  pub effects : w'.effects ≡ w.effects

-- A refresh that failed: one request, nobody signed in, the stored token kept or cleared.
pub record Expired (token : String) (w w' : World) : Type 0 where
  pub sent : w'.sent ≡ refresh_request token ∷ w.sent
  pub auth : w'.auth ≡ clear_session w.auth
  pub storage : (w'.storage ≡ w.storage) ⊎ (w'.storage ≡ clear_refresh_token w.storage)
  pub effects : w'.effects ≡ w.effects

-- An answer to the refresh request that is accepted installs a session; any other changes nothing.
abbrev pub Accepted : Host → Result String × World → World → Type 0
Accepted h r w =
    ((p : AuthResponse) × (body : Json) × (h.parse_auth_response body ≡ some p)
      × (r ≡ (ok p.tokens.access_token, (install p w).1)))
    ⊎ ((e : Thrown) × (r ≡ (err e, w)))

module _ (h : Host) (w : World) where
  accept_refresh_cases : (res : Response) → Accepted h (accept_refresh h res w) w
  unfolding accept_refresh guard or_throw install app
  accept_refresh_cases res = elim (Bool-cases (is_ok res)) [
    | inr bad ↦ inr (api_error res.status "refresh_failed" "refresh failed", rw (bad, guard))
    | inl good ↦ elim (Option-cases res.json) [
      | inl no_json ↦ inr (syntax_error, rw (good, guard) (rw (no_json, json)))
      | inr (body, e) ↦ elim (Option-cases (h.parse_auth_response body)) [
        | inl misfit ↦ inr (schema_error, rw (good, guard) (rw (e, json) (rw (misfit, or_throw))))
        | inr (p, fits) ↦ inl (p, body, fits, rw (good, guard) (rw (e, json) (rw (fits, or_throw))))
      ]
    ]
  ]

  pub received-Accepted : (r : Reply) → Accepted h ((received r >>= accept_refresh h) w) w
  unfolding ◌>>=◌ received
  received-Accepted failed = inr (network_error, refl)
  received-Accepted (response res) = accept_refresh_cases res

module _ (h : Host) (w : World) (token : String) (e : stored w ≡ some token) where
  abbrev asked : World
  asked = record w { sent = refresh_request token ∷ w.sent }

  pub perform_refresh-asked :
      perform_refresh h w
      ≡ (received (h.server w.sent (refresh_request token)) >>= accept_refresh h) asked
  unfolding perform_refresh get_storage or_throw pure fetch ◌>>=◌
  perform_refresh-asked = bind-ok (or_throw (stored w) _) _ {w = w} {w' = w} {a = token} (rw e)

  perform_refresh_cases : Accepted h (perform_refresh h w) asked
  perform_refresh_cases =
      rw perform_refresh-asked (received-Accepted h asked (h.server w.sent (refresh_request token)))

  refresh_session_of_ok :
      {t : String} {w' : World}
      → perform_refresh h w ≡ (ok t, w')
      → refresh_session h w ≡ (ok tt, w')
  unfolding refresh_session app
  refresh_session_of_ok q = rw q

  refresh_session_of_err :
      {x : Thrown} {w' : World}
      → perform_refresh h w ≡ (err x, w')
      → refresh_session h w ≡ expire x w'
  unfolding refresh_session app
  refresh_session_of_err q = rw q

  abbrev Outcome : Result (Unit {0}) × World → Type 0
  Outcome r =
      ((r.0 ≡ ok tt) × Refreshed h token w r.1)
      ⊎ ((r.0 ≡ err session_expired) × Expired token w r.1)

  expire-Outcome : (x : Thrown) → Outcome (expire x asked)
  unfolding expire app
  expire-Outcome x = elim (Bool-cases (is_unauthorized x)) [
    | inl gone ↦
        inr (
          rw gone,
          rw gone (record { sent = refl; auth = refl; storage = inr refl; effects = refl }),
        )
    | inr kept ↦
        inr (
          rw kept,
          rw kept (record { sent = refl; auth = refl; storage = inl refl; effects = refl }),
        )
  ]

  pub refresh_session_cases : Outcome (refresh_session h w)
  unfolding install app
  refresh_session_cases = elim perform_refresh_cases [
    | inl (p, body, valid, q) ↦ rw (refresh_session_of_ok q) (
        inl (
          refl,
          record {
            pair = p;
            body = body;
            valid = valid;
            sent = refl;
            auth = refl;
            storage = refl;
            effects = refl;
          },
        ))
    | inr (x, q) ↦ rw (refresh_session_of_err q) (expire-Outcome x)
  ]

  -- The answer to the refresh request.
  abbrev answer : Reply
  answer = h.server w.sent (refresh_request token)

  pub refresh_session_accepted :
      (res : Response) (body : Json) (p : AuthResponse)
      → answer ≡ response res
      → is_ok res ≡ true
      → res.json ≡ some body
      → h.parse_auth_response body ≡ some p
      → refresh_session h w ≡ (ok tt, (install p asked).1)
  unfolding accept_refresh guard or_throw app install
  refresh_session_accepted res body p a good j fits =
      refresh_session_of_ok {t = p.tokens.access_token} {w' = (install p asked).1}
        (perform_refresh-asked ∙ rw a (rw (good, guard) (rw (j, json) (rw (fits, or_throw)))))

  pub refresh_session_refused :
      (res : Response)
      → answer ≡ response res
      → is_ok res ≡ false
      → refresh_session h w ≡ (
        err session_expired,
        record asked {
          auth = clear_session w.auth;
          storage = if res.status == 401 then clear_refresh_token w.storage else w.storage;
        },
      )
  unfolding accept_refresh guard app expire
  refresh_session_refused res a bad =
      refresh_session_of_err {x = api_error res.status "refresh_failed" "refresh failed"}
        {w' = asked} (perform_refresh-asked ∙ rw a (rw (bad, guard)))
      ∙ (elim (Bool-cases (res.status == 401)) [ inl e ↦ rw e | inr e ↦ rw e ])

  pub refresh_session_unreachable :
      answer ≡ failed
      → refresh_session h w ≡ (err session_expired, record asked { auth = clear_session w.auth })
  unfolding app expire
  refresh_session_unreachable a =
      refresh_session_of_err {x = network_error} {w' = asked} (perform_refresh-asked ∙ rw a)
