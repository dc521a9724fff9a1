-- ===== src/Tests/Session.antt =====
-- The client and the session.
use linktheca.Prelude.{◌≡◌, ◌⊎◌, refl, false, none, some, [], ◌∷◌, nat_eq}
use linktheca.Web.Json.{null}
use linktheca.Web.Http.{Response, response, api, no_init, is_ok}
use linktheca.Web.App.{ok, err, app}
use linktheca.Auth.Storage.{read_refresh_token, write_refresh_token, clear_refresh_token}
use linktheca.Auth.Store.{authed, anonymous, set_session, clear_session}
use linktheca.Auth.Schemas.{map_user}
use linktheca.Auth.Consistency.{IsConsistent, initial-IsConsistent}
use linktheca.Api.Client.{
  request, refresh_request, install, or_throw, guard, expire, accept_refresh, perform_refresh,
  refresh_session, error_of, result_of, may_refresh, settle, attempt, api_fetch_retry, api_fetch,
  session_expired,
}
use linktheca.Api.Client.Retrying.{after_request, api_fetch_renewed, api_fetch_refused}
use linktheca.Api.Client.Requests.{Trace, api_fetch-Trace}
use linktheca.Api.Envelope.{write_error, read_error, api_fetch-write_error}
use linktheca.Auth.Session.{LoginInput, login, use_logout, use_bootstrap, logout_init}
use linktheca.Auth.Session.Invariant.{bootstraps, logs_in, logs_out, run, run-IsConsistent}
use linktheca.Auth.Session.SignIn.{login_signs_in_old_user}
use linktheca.Auth.Session.SignOut.{SignedOut, use_logout-SignedOut, use_logout_sends_old_token}
use linktheca.Auth.Session.Bootstrap.{use_bootstrap_settles}
use linktheca.Tests.Fixtures.{pair, host, tokens, reply, ann, fresh, signed_in, renewing}

client : Unit {0}
unfolding app read_refresh_token write_refresh_token clear_refresh_token set_session clear_session
    map_user install or_throw guard expire accept_refresh perform_refresh refresh_session error_of
    result_of may_refresh settle attempt api_fetch_retry api_fetch is_ok
client = tt

-- A request that is answered 401 goes out again with the renewed token.
renewed_request : api_fetch (renewing (reply 200 (some null))) "/library" no_init signed_in ≡ (
  ok (some null),
  record {
    storage = record { disabled = false; item = some "new" };
    auth = record { access_token = some "a1"; user = some ann; status = authed };
    sent =
        request (some "a1") "/library" no_init
        ∷ refresh_request "old"
        ∷ request (some "a0") "/library" no_init
        ∷ [];
    effects = [];
  },
)
unfolding client
renewed_request = refl

api_fetch-Trace_example :
    Trace
      (renewing (reply 200 none))
      "/library"
      no_init
      signed_in
      (api_fetch (renewing (reply 200 none)) "/library" no_init signed_in).1
api_fetch-Trace_example = api_fetch-Trace (renewing (reply 200 none)) "/library" no_init signed_in

abbrev not_found : Response
not_found = write_error "Not Found" 404 "not_found" ""

-- The server names no message, so the text of the status stands for it.
api_fetch-write_error_example :
    api_fetch (host (response not_found ∷ [])) "/library" no_init signed_in ≡ (
      err (api (read_error "Not Found" 404 "not_found" "")),
      after_request (host (response not_found ∷ [])) "/library" no_init signed_in,
    )
unfolding write_error client
api_fetch-write_error_example =
    api_fetch-write_error (host (response not_found ∷ [])) "/library" no_init signed_in "Not Found"
      404 "not_found" "" refl refl refl refl

api_fetch_renewed_example :
    api_fetch (renewing (reply 200 (some null))) "/library" no_init signed_in
    ≡ api_fetch_retry
        (renewing (reply 200 (some null)))
        "/library"
        no_init
        (install (pair "a1" "new") (record signed_in {
          sent = refresh_request "old" ∷ request (some "a0") "/library" no_init ∷ [];
        })).1
unfolding client
api_fetch_renewed_example =
    api_fetch_renewed (renewing (reply 200 (some null))) "/library" no_init signed_in
      (reply 401 none) refl refl refl "old" (reply 200 (some (tokens "a1" "new")))
      (tokens "a1" "new") (pair "a1" "new") refl refl refl refl refl

api_fetch_refused_example :
    api_fetch
      (host (response (reply 401 none) ∷ response (reply 401 none) ∷ []))
      "/library"
      no_init
      signed_in
    ≡ (
      err session_expired,
      record {
        storage = clear_refresh_token signed_in.storage;
        auth = clear_session signed_in.auth;
        sent = refresh_request "old" ∷ request (some "a0") "/library" no_init ∷ [];
        effects = [];
      },
    )
unfolding client
api_fetch_refused_example =
    api_fetch_refused (host (response (reply 401 none) ∷ response (reply 401 none) ∷ [])) "/library"
      no_init signed_in (reply 401 none) refl refl refl "old" (reply 401 none) refl refl refl

abbrev credentials : LoginInput
credentials = record { email = "bob@example.org"; password = "guess" }

run-IsConsistent_example :
    IsConsistent
      (run
        (renewing (reply 401 none))
        (bootstraps ∷ logs_in credentials ∷ logs_out ∷ [])
        (fresh (some "old"))).auth
run-IsConsistent_example =
    run-IsConsistent (renewing (reply 401 none)) (bootstraps ∷ logs_in credentials ∷ logs_out ∷ [])
      (fresh (some "old")) initial-IsConsistent

-- The password of Bob is wrong, and Ann's old refresh token is still stored.
login_signs_in_old_user_example :
    ((login (renewing (reply 401 none)) credentials (fresh (some "old"))).0
      ≡ err (api (error_of (renewing (reply 401 none)) (reply 401 none))))
    × ((login (renewing (reply 401 none)) credentials (fresh (some "old"))).1.auth
        ≡ set_session "a1" ann (fresh (some "old")).auth)
unfolding client
login_signs_in_old_user_example =
    login_signs_in_old_user (renewing (reply 401 none)) credentials (fresh (some "old")) "old"
      (reply 401 none) (reply 200 (some (tokens "a1" "new"))) (reply 401 none) (tokens "a1" "new")
      (pair "a1" "new") refl refl refl refl refl refl refl refl refl

use_logout-SignedOut_example :
    ((use_logout (renewing (reply 500 none)) signed_in).0 ≡ ok tt)
    × SignedOut
        (renewing (reply 500 none))
        signed_in
        (use_logout (renewing (reply 500 none)) signed_in).1
use_logout-SignedOut_example = use_logout-SignedOut (renewing (reply 500 none)) signed_in

use_logout_sends_old_token_example :
    (use_logout (renewing (reply 204 none)) signed_in).1.sent
    ≡ request (some "a1") "/auth/logout" (logout_init (some "old"))
      ∷ refresh_request "old"
      ∷ request (some "a0") "/auth/logout" (logout_init (some "old"))
      ∷ []
unfolding client
use_logout_sends_old_token_example =
    use_logout_sends_old_token (renewing (reply 204 none)) signed_in "old" (reply 401 none)
      (reply 200 (some (tokens "a1" "new"))) (tokens "a1" "new") (pair "a1" "new") refl refl refl
      refl refl refl refl

use_bootstrap_settles_example :
    ((use_bootstrap (host []) (fresh (some "old"))).1.auth.status ≡ authed)
    ⊎ ((use_bootstrap (host []) (fresh (some "old"))).1.auth.status ≡ anonymous)
use_bootstrap_settles_example = use_bootstrap_settles (host []) (fresh (some "old"))
