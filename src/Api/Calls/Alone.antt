-- ===== src/Api/Calls/Alone.antt =====
-- A call of `apiFetch` of web/src/shared/api/client.ts that is the only one on its way, against a
-- server that answers each request when it has come.
use linktheca.Prelude.{
  ℕ, arith, ◌≡◌, refl, ◌∙◌, sym, ap, String, Bool, true, false, not, ◌&&◌, Option, none, some, List,
  [], ◌∷◌, inl, inr, Bool-cases,
}
use linktheca.Web.Json.{Json}
use linktheca.Web.Http.{
  Host, Reply, failed, response, Request, RequestInit, Response, is_ok, Thrown, network_error,
}
use linktheca.Web.App.{
  App, World, Result, ok, err, ◌>>=◌, ◌>>◌, received, app, continue, handle, catch, pure,
}
use linktheca.Api.Client.{
  request, refresh_request, may_refresh, settle, api_fetch, api_fetch_retry, refresh_session,
  expire, session_expired, is_unauthorized,
}
use linktheca.Api.Client.Retrying.{
  after_request, attempt-received, settle-none-world, may_refresh-stored,
}
use linktheca.Api.Client.Refreshing.{stored, perform_refresh-asked}
use linktheca.Api.Refresh.{finish, finish_all, begin, call, answered, answer}
use linktheca.Api.Calls.{
  Stage, first, refreshing, second, ended, Calls, idle, fetch_call, resume, resume_call, resume_all,
  join, answer_call, answers, refreshes, step,
}

module _ (h : Host) where
  -- The server answers the newest request, which is a refresh if one is on its way.
  abbrev pub reply : Option (List ℕ) → Reply → Calls → Calls
  reply none r s = step h (answers 0 r) s
  reply (some ws) r s = step h (refreshes r) s

  abbrev serve_newest : List Request → Calls → Calls
  serve_newest [] s = s
  serve_newest (req ∷ before) s = reply s.shared.refresh_promise (h.server before req) s

  abbrev pub serve : Calls → Calls
  serve s = serve_newest s.shared.world.sent s

  module _ (path : String) (init : RequestInit) where
    abbrev pub alone : Option (List ℕ) → Stage → World → Calls
    alone o st w = record {
      shared = record { world = w; refresh_promise = o; outcomes = [] };
      calls = record { number = 0; path = path; init = init; stage = st } ∷ [];
    }

    abbrev pub over : Result (Option Json) × World → Calls
    over r = alone none (ended r.0) r.1

    over-newest :
        (reqs : List Request) (r : Result (Option Json) × World)
        → serve_newest reqs (over r) ≡ over r
    unfolding step answer_call
    over-newest [] r = refl
    over-newest (req ∷ before) r = refl

    over-served : (r : Result (Option Json) × World) → serve (over r) ≡ over r
    over-served r = over-newest r.1.sent r

    -- The answer to the second try.
    second-answered :
        (r : Reply) (w : World)
        → step h (answers 0 r) (alone none second w) ≡ over ((received r >>= settle h none path) w)
    unfolding step answer_call app
    second-answered failed w = refl
    second-answered (response res) w =
        ap (alone none (ended (settle h none path res w).0))
          (sym (settle-none-world h path init res w))

    -- An answer that ends the call at once.
    first-ended :
        (res : Response) (w : World)
        → not (is_ok res) && may_refresh path res w.storage ≡ false
        → step h (answers 0 (response res)) (alone none first w) ≡ over (settle h none path res w)
    unfolding step answer_call
    first-ended res w e = rw e (
        ap (alone none (ended (settle h none path res w).0))
          (sym (settle-none-world h path init res w)))

    second-served :
        (w : World)
        → serve (alone none second (after_request h path init w))
          ≡ over (api_fetch_retry h path init w)
    unfolding api_fetch_retry
    second-served w =
        second-answered (h.server w.sent (request w.auth.access_token path init))
          (after_request h path init w)
        ∙ ap over (sym (attempt-received h path init none w))

    -- What a refresh leads to.
    abbrev after_refresh : Result String × World → Calls
    after_refresh (ok token, w) = alone none second (after_request h path init w)
    after_refresh (err e, w) = over (err session_expired, (expire e w).1)

    expired_err : (e : Thrown) (w : World) → (expire e w).0 ≡ err session_expired
    unfolding app expire
    expired_err e w = elim (Bool-cases (is_unauthorized e)) [
      | inl q ↦ rw q refl
      | inr q ↦ rw q refl
    ]

    refresh-finished :
        (r : Result String) (w : World)
        → resume_all (record {
          shared =
              finish_all (0 ∷ []) r (record { world = w; refresh_promise = none; outcomes = [] });
          calls = record { number = 0; path = path; init = init; stage = refreshing } ∷ [];
        })
          ≡ after_refresh (r, w)
    unfolding resume_all resume resume_call finish_all finish
    refresh-finished (ok token) w = refl
    refresh-finished (err e) w = rw (expired_err e w) refl

    abbrev refresh_asked : String → World → World
    refresh_asked token w = record w { sent = refresh_request token ∷ w.sent }

    abbrev refreshed : String → World → Result String × World
    refreshed token w = answered h (h.server w.sent (refresh_request token)) (refresh_asked token w)

    refresh-served :
        (token : String) (w : World)
        → serve (alone (some (0 ∷ [])) refreshing (refresh_asked token w))
          ≡ after_refresh (refreshed token w)
    unfolding step answer
    refresh-served token w = refresh-finished (refreshed token w).0 (refreshed token w).1

    first-joined :
        (res : Response) (w : World) (token : String)
        → not (is_ok res) && may_refresh path res w.storage ≡ true
        → stored w ≡ some token
        → step h (answers 0 (response res)) (alone none first w)
          ≡ alone (some (0 ∷ [])) refreshing (refresh_asked token w)
    unfolding step answer_call join call begin resume_all resume
    first-joined res w token e q = rw e (rw q refl)

    -- What the rest of `api_fetch` makes of a refresh.
    abbrev retried : Result String × World → Result (Option Json) × World
    retried (ok token, w) = api_fetch_retry h path init w
    retried (err e, w) = (err session_expired, (expire e w).1)

    after_refresh-served : (r : Result String × World) → serve (after_refresh r) ≡ over (retried r)
    after_refresh-served (ok token, w) = second-served w
    after_refresh-served (err e, w) = over-served (err session_expired, (expire e w).1)

    continue_err :
        (p : Result (Unit {0}) × World) (x : Thrown)
        → p.0 ≡ err x
        → continue (λ _. api_fetch_retry h path init) p ≡ (err x, p.1)
    continue_err (ok u, w) x e = cc e
    continue_err (err y, w) x e = cc e

    retried_lem :
        (r : Result String × World)
        → continue (λ _. api_fetch_retry h path init) (handle expire (continue (λ _. pure tt) r))
          ≡ retried r
    unfolding pure
    retried_lem (ok token, w) = refl
    retried_lem (err e, w) = continue_err (expire e w) session_expired (expired_err e w)

    refresh_session-retried :
        (token : String) (w : World)
        → stored w ≡ some token
        → (refresh_session h >> api_fetch_retry h path init) w ≡ retried (refreshed token w)
    unfolding refresh_session catch ◌>>=◌ ◌>>◌ answered
    refresh_session-retried token w q =
        ap
          (λ r.
            continue (λ _. api_fetch_retry h path init) (handle expire (continue (λ _. pure tt) r)))
          (perform_refresh-asked h w token q)
        ∙ retried_lem (refreshed token w)

    -- The test for a second try, in the words of `settle`.
    abbrev renews : Response → World → Bool
    renews res w = not (is_ok res) && may_refresh path res w.storage

    settle-renews :
        (again : App (Option Json)) (res : Response) (w : World)
        → renews res w ≡ true
        → settle h (some again) path res w ≡ (refresh_session h >> again) w
    unfolding settle app
    settle-renews again res w e =
        let bad : is_ok res ≡ false = ground arith in
        let good : may_refresh path res w.storage ≡ true = ground arith in rw bad (rw good refl)

    settle-ends :
        (again : App (Option Json)) (res : Response) (w : World)
        → renews res w ≡ false
        → settle h (some again) path res w ≡ settle h none path res w
    unfolding settle app
    settle-ends again res w e = ground arith

    -- The two answers after the first one.
    first-served :
        (r : Reply) (w : World)
        → serve (serve (step h (answers 0 r) (alone none first w)))
          ≡ over ((received r >>= settle h (some (api_fetch_retry h path init)) path) w)
    unfolding step answer_call ◌>>=◌ received
    first-served failed w =
        ap serve (over-served (err network_error, w)) ∙ over-served (err network_error, w)
    first-served (response res) w = elim (Bool-cases (renews res w)) [
      | inl e ↦
          let again : may_refresh path res w.storage ≡ true = ground arith in
          let (token, q) = may_refresh-stored path res w.storage again in
          ap (λ s. serve (serve s)) (first-joined res w token e q)
          ∙ ap serve (refresh-served token w)
          ∙ after_refresh-served (refreshed token w)
          ∙ ap over (sym (refresh_session-retried token w q))
          ∙ ap over (sym (settle-renews (api_fetch_retry h path init) res w e))
      | inr e ↦
          let r = settle h none path res w in
          ap (λ s. serve (serve s)) (first-ended res w e)
          ∙ ap serve (over-served r)
          ∙ over-served r
          ∙ ap over (sym (settle-ends (api_fetch_retry h path init) res w e))
    ]

    -- A call that is the only one on its way, is, after three rounds in which the server answers
    -- the newest request if it is still awaited, where apiFetch run from start to end is: ended
    -- with its result, in its world, and with no refresh on its way.
    pub alone_lem :
        (w : World)
        → serve (serve (serve (fetch_call path init (idle w)))) ≡ over (api_fetch h path init w)
    unfolding fetch_call api_fetch
    alone_lem w =
        first-served (h.server w.sent (request w.auth.access_token path init))
          (after_request h path init w)
        ∙ ap over (sym (attempt-received h path init (some (api_fetch_retry h path init)) w))
