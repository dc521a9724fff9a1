-- ===== src/Api/Refresh.antt =====
-- `refreshOnce` of web/src/shared/api/client.ts: callers of `refreshSession` that come while a
-- refresh is on its way wait for that one. The calls and the server's answer may come in any order.
pub mod Sharing
pub mod Bound
pub mod Signed
use linktheca.Prelude.{ℕ, String, Option, none, some, List, [], ◌∷◌, ◌++◌, truthy}
use linktheca.Web.Http.{Host, Reply, Thrown}
use linktheca.Web.App.{World, Result, ok, err, App, ◌>>=◌, received}
use linktheca.Auth.Storage.{read_refresh_token}
use linktheca.Api.Client.{api_error, refresh_request, accept_refresh, expire}

-- `refreshPromise` holds the callers that wait for it, the first one first. `outcomes` has how the
-- callers went on, the newest first.
pub record Shared : Type 0 where
  pub world : World
  pub refresh_promise : Option (List ℕ)
  pub outcomes : List (ℕ × Result (Unit {0}))

-- What follows `await refreshOnce()` in `refreshSession`.
unfoldable pub finish : ℕ → Result String → Shared → Shared
finish i (ok token) s = record s { outcomes = (i, ok tt) ∷ s.outcomes }
finish i (err e) s =
    let (r, w) = expire e s.world in record s { world = w; outcomes = (i, r) ∷ s.outcomes }

unfoldable pub finish_all : List ℕ → Result String → Shared → Shared
finish_all [] r s = s
finish_all (i ∷ is) r s = finish_all is r (finish i r s)

abbrev pub no_token : Thrown
no_token = api_error 401 "no_refresh_token" "no refresh token"

-- `performRefresh` up to the request, by the stored token.
unfoldable pub begin : ℕ → Option String → Shared → Shared
begin i none s = finish i (err no_token) s
begin i (some token) s = record s {
  world = record s.world { sent = refresh_request token ∷ s.world.sent };
  refresh_promise = some (i ∷ []);
}

-- A caller enters: it joins the refresh on its way or begins one.
unfoldable pub call : ℕ → Shared → Shared
call i s = elim s.refresh_promise [
  | some waiting ↦ record s { refresh_promise = some (waiting ++ i ∷ []) }
  | none ↦ begin i (truthy (read_refresh_token s.world.storage)) s
]

module _ (h : Host) where
  -- `performRefresh` from the answer on.
  unfoldable pub answered : Reply → App String
  answered reply = received reply >>= accept_refresh h

  -- The answer comes: the promise is cleared, and then the callers go on.
  unfoldable pub answer : Reply → Shared → Shared
  unfolding answered
  answer reply s = elim s.refresh_promise [
    | none ↦ s
    | some waiting ↦
        let (r, w) = answered reply s.world in
        finish_all waiting r (record s { world = w; refresh_promise = none })
  ]

  pub data Event : Type 0 where
    calls : ℕ → Event
    answers : Reply → Event

  unfoldable pub step : Event → Shared → Shared
  unfolding call answer
  step (calls i) s = call i s
  step (answers reply) s = answer reply s

  unfoldable pub steps : List Event → Shared → Shared
  unfolding step
  steps [] s = s
  steps (e ∷ es) s = steps es (step e s)
