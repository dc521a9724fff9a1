-- ===== src/Auth/Session/Bootstrap.antt =====
-- What `useBootstrap` of web/src/features/auth/use-bootstrap.tsx makes of a stored token.
use linktheca.Prelude.{
  String, ◌≡◌, refl, ap, ◌∙◌, ◌⊎◌, inl, inr, false, none, some, ◌∷◌, Option-cases, if◌then◌else◌,
  ◌==◌, nat_eq,
}
use linktheca.Web.Http.{Host, Response, is_ok, failed, response}
use linktheca.Web.App.{World, Result, ok, err, pure, handle, app}
use linktheca.Auth.Storage.{clear_refresh_token}
use linktheca.Auth.Store.{authed, anonymous, set_session, clear_session}
use linktheca.Api.Client.{refresh_request, refresh_session}
use linktheca.Api.Client.Refreshing.{
  stored, Refreshed, Expired, refresh_session_cases, refresh_session_refused,
  refresh_session_unreachable,
}
use linktheca.Auth.Session.{use_bootstrap}

module _ (h : Host) (w : World) where
  use_bootstrap_without :
      stored w ≡ none → use_bootstrap h w ≡ (ok tt, record w { auth = clear_session w.auth })
  unfolding use_bootstrap app
  use_bootstrap_without e = rw e

  ignored-world : (r : Result (Unit {0}) × World) → (handle (λ _. pure tt) r).1 ≡ r.1
  unfolding pure
  ignored-world (ok a, v) = refl
  ignored-world (err e, v) = refl

  use_bootstrap_with :
      {token : String} → stored w ≡ some token → (use_bootstrap h w).1 ≡ (refresh_session h w).1
  unfolding use_bootstrap app
  use_bootstrap_with e = rw e (ignored-world (refresh_session h w))

  -- Every page load comes to one of three ends.
  pub data Settled (w' : World) : Type 0 where
    no_token : stored w ≡ none → w' ≡ record w { auth = clear_session w.auth } → Settled w'
    taken_up : (token : String) → stored w ≡ some token → Refreshed h token w w' → Settled w'
    given_up : (token : String) → stored w ≡ some token → Expired token w w' → Settled w'

  use_bootstrap-Settled : Settled (use_bootstrap h w).1
  use_bootstrap-Settled = elim (Option-cases (stored w)) [
    | inl gone ↦ no_token gone (ap (λ r. r.1) (use_bootstrap_without gone))
    | inr (token, e) ↦ rw (use_bootstrap_with e) (elim (refresh_session_cases h w token e) [
      | inl (_, r) ↦ taken_up token e r
      | inr (_, x) ↦ given_up token e x
    ])
  ]

  Settled-status :
      {w' : World} → Settled w' → (w'.auth.status ≡ authed) ⊎ (w'.auth.status ≡ anonymous)
  unfolding set_session clear_session
  Settled-status (no_token _ q) = inr (ap (λ v. v.auth.status) q)
  Settled-status (taken_up _ _ r) = inl (ap (λ a. a.status) r.auth)
  Settled-status (given_up _ _ x) = inr (ap (λ a. a.status) x.auth)

  -- A page load ends with the status authed or anonymous, whatever the storage and the server.
  pub use_bootstrap_settles :
      ((use_bootstrap h w).1.auth.status ≡ authed) ⊎ ((use_bootstrap h w).1.auth.status ≡ anonymous)
  use_bootstrap_settles = Settled-status use_bootstrap-Settled

  -- The refresh that a page load tries did not work.
  module _ (token : String) (e : stored w ≡ some token) where
    -- A page load with a stored token whose refresh is answered with an error sends that one
    -- request, clears the session, and clears the token exactly if the answer is 401.
    use_bootstrap_refused :
        (res : Response)
        → h.server w.sent (refresh_request token) ≡ response res
        → is_ok res ≡ false
        → (use_bootstrap h w).1 ≡ record w {
          sent = refresh_request token ∷ w.sent;
          auth = clear_session w.auth;
          storage = if res.status == 401 then clear_refresh_token w.storage else w.storage;
        }
    use_bootstrap_refused res a bad =
        use_bootstrap_with e ∙ ap (λ r. r.1) (refresh_session_refused h w token e res a bad)

    -- A page load with a stored token whose refresh cannot reach the server sends that one request,
    -- clears the session and keeps the token.
    use_bootstrap_unreachable :
        h.server w.sent (refresh_request token) ≡ failed
        → (use_bootstrap h w).1
          ≡ record w { sent = refresh_request token ∷ w.sent; auth = clear_session w.auth }
    use_bootstrap_unreachable a =
        use_bootstrap_with e ∙ ap (λ r. r.1) (refresh_session_unreachable h w token e a)
