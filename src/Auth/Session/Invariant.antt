-- ===== src/Auth/Session/Invariant.antt =====
-- The session store under the actions of web/src/features/auth, one after the other.
use linktheca.Prelude.{
  String, Bool, true, false, Option, none, some, List, [], ◌∷◌, inl, inr, Option-cases,
}
use linktheca.Web.Json.{Json}
use linktheca.Web.Http.{Host, Request, RequestInit, Response, Reply, failed, response, Thrown}
use linktheca.Web.App.{
  World, modify_storage, modify_auth, perform, Effect, ◌>>=◌, ◌>>◌, fetch, json, received,
}
use linktheca.Web.App.Keeps.{Preserves, preserves_rules}
use linktheca.Auth.Storage.{Storage}
use linktheca.Auth.Store.{clear_session}
use linktheca.Auth.Schemas.{AuthResponse}
use linktheca.Auth.Consistency.{
  IsConsistent, set_session-IsConsistent, clear_session-IsConsistent, api_fetch-IsConsistent,
}
use linktheca.Api.Client.{
  or_throw, guard, install, expire, accept_refresh, perform_refresh, refresh_session, api_fetch,
}
use linktheca.Auth.Session.{
  LoginInput, RegisterInput, consume_auth_response, login, register, me, logout, use_logout,
  use_bootstrap,
}

abbrev Sound : World → Type 0
Sound w = IsConsistent w.auth

or_throw-Sound : {A : Type 0} (o : Option A) (e : Thrown) → Preserves Sound (or_throw o e)
unfolding or_throw
or_throw-Sound none e = search preserves_rules
or_throw-Sound (some a) e = search preserves_rules

storage-Sound : (f : Storage → Storage) → Preserves Sound (modify_storage f)
unfolding modify_storage
storage-Sound f = record { after = λ w c. c }

perform-Sound : (e : Effect) → Preserves Sound (perform e)
unfolding perform
perform-Sound e = record { after = λ w c. c }

clear-Sound : Preserves Sound (modify_auth clear_session)
unfolding modify_auth
clear-Sound = record { after = λ w c. clear_session-IsConsistent w.auth }

install-Sound : (p : AuthResponse) → Preserves Sound (install p)
unfolding install modify_auth modify_storage ◌>>◌ ◌>>=◌
install-Sound p = record { after = λ w c. set_session-IsConsistent _ _ w.auth }

module _ (h : Host) where
  fetch-Sound : (path : String) (init : RequestInit) → Preserves Sound (api_fetch h path init)
  fetch-Sound path init = record { after = λ w c. api_fetch-IsConsistent h path init w c }

  ruleset sound_rules = (
    preserves_rules, or_throw-Sound, storage-Sound, perform-Sound, clear-Sound, install-Sound,
    fetch-Sound,
  )

  consume-Sound : (raw : Option Json) → Preserves Sound (consume_auth_response h raw)
  unfolding consume_auth_response
  consume-Sound raw = search sound_rules

  login-Sound : (input : LoginInput) → Preserves Sound (login h input)
  unfolding login
  login-Sound input = search (sound_rules, consume-Sound)

  register-Sound : (input : RegisterInput) → Preserves Sound (register h input)
  unfolding register
  register-Sound input = search (sound_rules, consume-Sound)

  me-Sound : Preserves Sound (me h)
  unfolding me
  me-Sound = search sound_rules

  logout-Sound : (token : Option String) → Preserves Sound (logout h token)
  unfolding logout
  logout-Sound token = search sound_rules

  use_logout-Sound : Preserves Sound (use_logout h)
  unfolding use_logout
  use_logout-Sound = search (sound_rules, logout-Sound) depth 9

  expire-Sound : (e : Thrown) → Preserves Sound (expire e)
  unfolding expire
  expire-Sound e = search sound_rules

  received-Sound : (r : Reply) (w : World) → Sound w → Sound (received r w).1
  unfolding received
  received-Sound failed w c = c
  received-Sound (response res) w c = c

  send-Sound : (req : Request) → Preserves Sound (fetch h req)
  unfolding fetch
  send-Sound req = record { after = λ w c. received-Sound (h.server w.sent req) _ c }

  json-Sound : (res : Response) → Preserves Sound (json res)
  unfolding json
  json-Sound res = elim (Option-cases res.json) [
    | inl e ↦ record { after = λ w c. rw (e, json) c }
    | inr (body, e) ↦ record { after = λ w c. rw (e, json) c }
  ]

  guard-Sound : (b : Bool) (e : Thrown) → Preserves Sound (guard b e)
  unfolding guard
  guard-Sound true e = search preserves_rules
  guard-Sound false e = search preserves_rules

  accept-Sound : (res : Response) → Preserves Sound (accept_refresh h res)
  unfolding accept_refresh
  accept-Sound res = search (sound_rules, json-Sound, guard-Sound)

  perform_refresh-Sound : Preserves Sound (perform_refresh h)
  unfolding perform_refresh
  perform_refresh-Sound = search (sound_rules, send-Sound, accept-Sound)

  refresh_session-Sound : Preserves Sound (refresh_session h)
  unfolding refresh_session
  refresh_session-Sound = search (sound_rules, perform_refresh-Sound, expire-Sound)

  use_bootstrap-Sound : Preserves Sound (use_bootstrap h)
  unfolding use_bootstrap
  use_bootstrap-Sound = search (sound_rules, refresh_session-Sound)

-- What can happen to the session while a page is open, in any order and as often as it may.
pub data Action : Type 0 where
  bootstraps : Action
  logs_in : LoginInput → Action
  registers : RegisterInput → Action
  asks_me : Action
  logs_out : Action
  fetches : String → RequestInit → Action

unfoldable pub act : Host → Action → World → World
act h bootstraps w = (use_bootstrap h w).1
act h (logs_in input) w = (login h input w).1
act h (registers input) w = (register h input w).1
act h asks_me w = (me h w).1
act h logs_out w = (use_logout h w).1
act h (fetches path init) w = (api_fetch h path init w).1

unfoldable pub run : Host → List Action → World → World
run h [] w = w
run h (a ∷ rest) w = run h rest (act h a w)

act-Sound : (h : Host) (a : Action) (w : World) → Sound w → Sound (act h a w)
unfolding act
act-Sound h bootstraps w c = (use_bootstrap-Sound h).after w c
act-Sound h (logs_in input) w c = (login-Sound h input).after w c
act-Sound h (registers input) w c = (register-Sound h input).after w c
act-Sound h asks_me w c = (me-Sound h).after w c
act-Sound h logs_out w c = (use_logout-Sound h).after w c
act-Sound h (fetches path init) w c = (fetch-Sound h path init).after w c

-- From a consistent session store, page loads, sign-ins, registrations, profile reads, sign-outs
-- and API calls, in any order and against any server, leave it consistent: either signed in with an
-- access token and a user, or with neither and a status other than authed.
pub run-IsConsistent :
    (h : Host) (actions : List Action) (w : World)
    → IsConsistent w.auth
    → IsConsistent (run h actions w).auth
unfolding run
run-IsConsistent h [] w c = c
run-IsConsistent h (a ∷ rest) w c = run-IsConsistent h rest (act h a w) (act-Sound h a w c)
