-- ===== src/Api/QueryClient/Retries.antt =====
-- Which failures of a query are tried again, and how often.
use linktheca.Prelude.{ℕ, ◌≡◌, ◌≢◌, ◌≤◌, ◌<◌, ◌↔◌, true, arith}
use linktheca.Web.Http.{ApiError, Thrown, api}
use linktheca.Api.QueryClient.{should_retry_query}

-- A server error other than 501.
pub data IsTransient : Thrown → Type 0 where
  transient : (e : ApiError) → 500 ≤ e.status → e.status ≢ 501 → IsTransient (api e)

retried : (n : ℕ) (e : Thrown) → should_retry_query n e ≡ true → (n < 2) × IsTransient e
unfolding should_retry_query
retried n (api e) q = (ground arith, transient e (ground arith) (λ s. ground (arith, s)))
retried n Thrown.network_error q = cc
retried n Thrown.syntax_error q = cc
retried n Thrown.schema_error q = cc
retried n Thrown.type_error q = cc

retries : (n : ℕ) (e : Thrown) → n < 2 → IsTransient e → should_retry_query n e ≡ true
unfolding should_retry_query
retries n _ l (transient e high other) = ground (arith, other)

-- A failed query is tried again exactly if it has failed less than twice before and the failure is
-- an API error of at least 500 other than 501.
should_retry_query_lem :
    (failure_count : ℕ) (e : Thrown)
    → (should_retry_query failure_count e ≡ true) ↔ ((failure_count < 2) × IsTransient e)
should_retry_query_lem n e = (retried n e, λ p. retries n e p.0 p.1)
