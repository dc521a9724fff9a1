-- ===== src/Tests/Calls.antt =====
-- Calls of the client that are on their way together, and one that is alone.
use linktheca.Prelude.{◌≡◌, refl, ◌++◌, none, some, List, [], ◌∷◌}
use linktheca.Web.Json.{null}
use linktheca.Web.Http.{Host, response, failed, no_init, is_ok}
use linktheca.Auth.Consistency.{IsConsistent}
use linktheca.Auth.Consistency as Consistency
use linktheca.Api.Client.{api_fetch, may_refresh}
use linktheca.Api.Refresh.{call, begin}
use linktheca.Auth.Storage.{read_refresh_token}
use linktheca.Api.Calls.{Event, fetches, answers, refreshes, run, idle, fetch_call}
use linktheca.Api.Calls.Among.{mem, AllAmong}
use linktheca.Api.Calls.Waiting.{queue, calls_wait}
use linktheca.Api.Calls.Signed.{auth, calls-IsConsistent}
use linktheca.Api.Calls.Alone.{serve, over, alone_lem}
use linktheca.Tests.Fixtures.{renewing, reply, signed_in, tokens, ann}

abbrev server : Host
server = renewing (reply 200 (some null))

-- Two calls are refused; the first begins a refresh, the second joins it, and a third is on its way.
abbrev crossing : List (Event server)
crossing =
    fetches "/library" no_init
    ∷ fetches "/radar/topics" no_init
    ∷ answers 1 (response (reply 401 none))
    ∷ answers 0 (response (reply 401 none))
    ∷ fetches "/auth/me" no_init
    ∷ []

-- The refresh is answered, and then the calls in another order.
abbrev answered : List (Event server)
answered =
    crossing
    ++ (refreshes (response (reply 200 (some (tokens "a1" "new"))))
        ∷ answers 0 (response (reply 204 none))
        ∷ answers 2 failed
        ∷ answers 1 (response (reply 401 none))
        ∷ [])

calls_wait_example :
    let s = run server crossing (idle signed_in) in AllAmong (λ j. mem j (queue s.shared)) s.calls
calls_wait_example = calls_wait server signed_in crossing

calls-IsConsistent_example : IsConsistent (auth (run server answered (idle signed_in)))
calls-IsConsistent_example =
    calls-IsConsistent server answered (idle signed_in) (Consistency.signed_in "a0" ann refl)

alone_lem_example :
    serve server (serve server (serve server (fetch_call "/library" no_init (idle signed_in))))
    ≡ over server "/library" no_init (api_fetch server "/library" no_init signed_in)
alone_lem_example = alone_lem server "/library" no_init signed_in

refresh_waits : queue (run server crossing (idle signed_in)).shared ≡ 1 ∷ 0 ∷ []
unfolding run is_ok may_refresh read_refresh_token call begin
refresh_waits = refl
