-- ===== src/Api/Client/Requests.antt =====
-- The requests of one call of `apiFetch`, the tokens that they carry, and what it returns.
use linktheca.Prelude.{
  String, ◌+◌, ◌≤◌, ◌≡◌, ◌∙◌, ap, ◌⊎◌, inl, inr, false, Bool-cases, Option, none, some, ◌∷◌, arith,
  length, ◌==◌, nat_eq, if◌then◌else◌,
}
use mathlib.Core.Path.{ap₂}
use linktheca.Web.Json.{Json}
use linktheca.Web.Http.{RequestInit, Response, is_ok, api, response, syntax_error, Host}
use linktheca.Web.App.{World, Result, ok, err, app}
use linktheca.Auth.Store.{authed, set_session, clear_session}
use linktheca.Api.Client.{
  request, refresh_request, result_of, may_refresh, settle, error_of, api_fetch,
}
use linktheca.Api.Client.Refreshing.{stored}
use linktheca.Api.Client.Retrying.{
  after_request, attempt-received, api_fetch_retry-world, Course, single, expired, repeated,
  api_fetch-Course,
}

module _ (h : Host) (path : String) (init : RequestInit) (w : World) where
  -- The requests of a call that ends in `w'`, newest first, with what the last two cases change.
  abbrev pub Trace : World → Type 0
  Trace w' =
      (w' ≡ after_request h path init w)
      ⊎ ((token : String) × (stored w ≡ some token)
          × (w'.sent ≡ refresh_request token ∷ request w.auth.access_token path init ∷ w.sent)
          × (w'.auth ≡ clear_session w.auth))
      ⊎ ((token access : String) × (stored w ≡ some token)
          × (w'.sent
              ≡ request (some access) path init
                ∷ refresh_request token
                ∷ request w.auth.access_token path init
                ∷ w.sent)
          × (w'.auth.access_token ≡ some access)
          × (w'.auth.status ≡ authed))

  Course-Trace : (r : Result (Option Json) × World) → Course h path init w r → Trace r.1
  unfolding set_session
  Course-Trace r (single e) = inl e
  Course-Trace r (expired token e _ x) = inr (inl (token, e, x.sent, x.auth))
  Course-Trace r (repeated token e v f q) =
      let last = ap (λ x. x.1) q ∙ api_fetch_retry-world h path init v in
      inr (
        inr (
          token,
          f.pair.tokens.access_token,
          e,
          ap (λ x. x.sent) last ∙ ap₂ (λ a s. request a.access_token path init ∷ s) f.auth f.sent,
          ap (λ x. x.auth.access_token) last ∙ ap (λ a. a.access_token) f.auth,
          ap (λ x. x.auth.status) last ∙ ap (λ a. a.status) f.auth,
        ))

  -- Every call of apiFetch sends one of three series of requests: its own request alone, and then
  -- nothing but the log of requests changes; its request and one refresh with the stored token,
  -- after which nobody is signed in; or its request, one refresh, and the same request again with
  -- the access token that the store then holds.
  pub api_fetch-Trace : Trace (api_fetch h path init w).1
  api_fetch-Trace = Course-Trace (api_fetch h path init w) (api_fetch-Course h path init w)

  -- What a call returns whose first answer `res` is final.
  abbrev pub outcome : Response → Result (Option Json)
  outcome res =
      if is_ok res
      then (if res.status == 204
          then ok none
          else elim res.json [ none ↦ err syntax_error | some body ↦ ok (some body) ])
      else err (api (error_of h res))

  -- If the first answer does not allow a refresh, apiFetch sends one request and ends by the
  -- answer: with nothing for 204, with the JSON of another success, with a syntax error for a
  -- success that is not JSON, and with the API error of any other status.
  pub api_fetch_answered :
      (res : Response)
      → h.server w.sent (request w.auth.access_token path init) ≡ response res
      → may_refresh path res w.storage ≡ false
      → api_fetch h path init w ≡ (outcome res, after_request h path init w)
  unfolding api_fetch app settle result_of
  api_fetch_answered res e final = rw attempt-received (
      rw e (elim (Bool-cases (is_ok res)) [
        | inl good ↦ rw good (ground arith)
        | inr bad ↦ rw bad (rw final)
      ]))

  between :
      (w' : World)
      → Trace w'
      → (length w.sent + 1 ≤ length w'.sent) × (length w'.sent ≤ length w.sent + 3)
  between w' (inl e) = omega (arith, ap (λ x. length x.sent) e)
  between w' (inr (inl (_, _, e, _))) = omega (arith, ap (λ x. length x) e)
  between w' (inr (inr (_, _, _, e, _, _))) = omega (arith, ap (λ x. length x) e)

  length-api_fetch :
      (length w.sent + 1 ≤ length (api_fetch h path init w).1.sent)
      × (length (api_fetch h path init w).1.sent ≤ length w.sent + 3)
  length-api_fetch = between (api_fetch h path init w).1 api_fetch-Trace
