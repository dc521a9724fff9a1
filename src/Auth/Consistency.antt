-- ===== src/Auth/Consistency.antt =====
-- The invariant of the session store of web/src/features/auth/store.ts.
use linktheca.Prelude.{String, ◌≡◌, ◌≢◌, refl, none, some}
use linktheca.Web.Json.{Json}
use linktheca.Prelude.{Option}
use linktheca.Web.Http.{RequestInit, Host}
use linktheca.Web.App.{World, Result}
use linktheca.Auth.Store.{User, AuthState, authed, initial, set_session, clear_session}
use linktheca.Api.Client.{api_fetch}
use linktheca.Api.Client.Retrying.{
  api_fetch_retry-world, Course, single, expired, repeated, api_fetch-Course,
}

-- Signed in with a token and a user, or neither.
pub data IsConsistent (s : AuthState) : Type 0 where
  signed_in :
      (token : String) (user : User)
      → s ≡ record { access_token = some token; user = some user; status = authed }
      → IsConsistent s
  signed_out : s.access_token ≡ none → s.user ≡ none → s.status ≢ authed → IsConsistent s

pub initial-IsConsistent : IsConsistent initial
initial-IsConsistent = signed_out refl refl (λ e. cc)

pub set_session-IsConsistent :
    (token : String) (user : User) (s : AuthState) → IsConsistent (set_session token user s)
unfolding set_session
set_session-IsConsistent token user s = signed_in token user refl

pub clear_session-IsConsistent : (s : AuthState) → IsConsistent (clear_session s)
unfolding clear_session
clear_session-IsConsistent s = signed_out refl refl (λ e. cc)

module _ (h : Host) (path : String) (init : RequestInit) (w : World) (c : IsConsistent w.auth) where
  Course-IsConsistent :
      (r : Result (Option Json) × World) → Course h path init w r → IsConsistent r.1.auth
  Course-IsConsistent r (single e) = rw e c
  Course-IsConsistent r (expired token e _ x) = rw x.auth (clear_session-IsConsistent w.auth)
  Course-IsConsistent r (repeated token e v f q) =
      rw q (rw api_fetch_retry-world (rw f.auth (set_session-IsConsistent _ _ _)))

  pub api_fetch-IsConsistent : IsConsistent (api_fetch h path init w).1.auth
  api_fetch-IsConsistent = Course-IsConsistent _ (api_fetch-Course h path init w)
