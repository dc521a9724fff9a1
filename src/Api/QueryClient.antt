-- ===== src/Api/QueryClient.antt =====
-- web/src/shared/api/query-client.ts: which failed queries are tried again.
pub mod Retries
use linktheca.Prelude.{ℕ, Bool, true, false, ◌||◌, ◌==◌, nat_eq, ltb, if◌then◌else◌}
use linktheca.Web.Http.{Thrown, api, network_error, syntax_error, schema_error, type_error}

unfoldable pub should_retry_query : ℕ → Thrown → Bool
should_retry_query failure_count (api e) =
    if ltb e.status 500 || e.status == 501 then false else ltb failure_count 2
should_retry_query failure_count network_error = false
should_retry_query failure_count syntax_error = false
should_retry_query failure_count schema_error = false
should_retry_query failure_count type_error = false
