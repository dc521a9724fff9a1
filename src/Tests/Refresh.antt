-- ===== src/Tests/Refresh.antt =====
-- Shared refreshes, and the guards of the pages.
use linktheca.Prelude.{◌+◌, ◌≤◌, ◌≡◌, ◌↔◌, refl, true, none, some, List, [], ◌∷◌, ◌++◌, map}
use linktheca.Web.Http.{response, failed, api}
use linktheca.Auth.Store.{AuthState, authed}
use linktheca.Auth.Storage.{read_refresh_token}
use linktheca.Auth.Consistency.{signed_in}
use linktheca.Api.Client.{refresh_request, refresh_session}
use linktheca.Api.Refresh.{Shared, Event, calls, answers, steps}
use linktheca.Api.Refresh.Sharing.{all_went, refresh_shared}
use linktheca.Api.Refresh.Bound.{asked, pending, answers_of, steps_balance}
use linktheca.Web.Location.{at}
use linktheca.Shell.{outlet, is_admin, protected_route, admin_route}
use linktheca.Shell.Guards.{has_admin_link, guards_agree}
use linktheca.Tests.Fixtures.{host, tokens, reply, fresh, ann}

abbrev renewing_once : linktheca.Web.Http.Host
renewing_once = host (response (reply 200 (some (tokens "a1" "new"))) ∷ [])

refresh_shared_example :
    steps renewing_once
      (map calls (1 ∷ 2 ∷ 3 ∷ []) ++ answers (renewing_once.server [] (refresh_request "old")) ∷ [])
      (record { world = fresh (some "old"); refresh_promise = none; outcomes = [] })
    ≡ record {
      world = (refresh_session renewing_once (fresh (some "old"))).1;
      refresh_promise = none;
      outcomes =
          all_went (1 ∷ 2 ∷ 3 ∷ []) (refresh_session renewing_once (fresh (some "old"))).0 [];
    }
unfolding read_refresh_token
refresh_shared_example =
    refresh_shared renewing_once (fresh (some "old")) "old" 1 (2 ∷ 3 ∷ []) [] refl

abbrev idle : Shared
idle = record { world = fresh (some "old"); refresh_promise = none; outcomes = [] }

abbrev two_rounds : List (Event renewing_once)
two_rounds = calls 1 ∷ calls 2 ∷ answers failed ∷ calls 3 ∷ []

steps_balance_example :
    asked (steps renewing_once two_rounds idle) + pending idle
    ≤ asked idle
      + pending (steps renewing_once two_rounds idle)
      + answers_of renewing_once two_rounds
steps_balance_example = steps_balance renewing_once two_rounds idle

abbrev admin : AuthState
admin = record {
  access_token = some "a0";
  user = some (record ann { is_admin = true });
  status = authed;
}

guards_agree_example :
    ((has_admin_link admin ≡ true) ↔ (admin_route admin (at "/admin/sources") ≡ outlet))
    × ((admin_route admin (at "/admin/sources") ≡ outlet)
        ↔ ((protected_route admin (at "/admin/sources") ≡ outlet) × (is_admin admin.user ≡ true)))
guards_agree_example =
    guards_agree admin (at "/admin/sources") (signed_in "a0" (record ann { is_admin = true }) refl)
