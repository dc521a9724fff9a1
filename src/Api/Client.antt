-- ===== src/Api/Client.antt =====
-- web/src/shared/api/client.ts. One call of `api_fetch` runs here from start to end; callers that
-- share a refresh are in Api/Refresh.
pub mod Refreshing
pub mod Retrying
pub mod Requests
use linktheca.Prelude.{
  ℕ, String, Bool, true, false, not, Option, none, some, ◌&&◌, ◌==◌, nat_eq, string_eq, truthy,
  nullish, is_some, append, if◌then◌else◌,
}
use linktheca.Web.Json.{Json, obj, field, nil, str}
use linktheca.Web.Json
use linktheca.Web.Http.{
  Headers, RequestInit, Request, Response, is_ok, ApiError, Thrown, api, network_error,
  syntax_error, schema_error, type_error, Host,
}
use linktheca.Web.App.{
  App, ok, err, pure, throw, catch, ◌>>=◌, ◌>>◌, get_storage, get_auth, modify_storage, modify_auth,
  fetch, json,
}
use linktheca.Auth.Storage.{Storage, read_refresh_token, write_refresh_token, clear_refresh_token}
use linktheca.Auth.Store.{set_session, clear_session}
use linktheca.Auth.Schemas.{AuthResponse, map_user}

abbrev api_base : String
api_base = "/api"

abbrev pub refresh_path : String
refresh_path = "/auth/refresh"

abbrev pub api_error : ℕ → String → String → Thrown
api_error status code message =
    api (record { status = status; code = code; message = message; details = none })

abbrev pub session_expired : Thrown
session_expired = api_error 401 "session_expired" "session expired"

-- `if (!o) throw e`, with the value of `o`
unfoldable pub or_throw {ℓ} : {A : Type ℓ} → Option A → Thrown → App A
or_throw none e = throw e
or_throw (some a) e = pure a

unfoldable pub guard : Bool → Thrown → App (Unit {0})
guard true e = pure tt
guard false e = throw e

abbrev pub refresh_request : String → Request
refresh_request token = record {
  path = append api_base refresh_path;
  method = some "POST";
  headers = record { content_type = some "application/json"; authorization = none };
  body = some (obj (field "refresh_token" (str token) nil));
  no_store = false;
}

-- What both `performRefresh` and the sign-in calls do with a parsed answer.
unfoldable pub install : AuthResponse → App (Unit {0})
install parsed = do
  modify_storage (write_refresh_token parsed.tokens.refresh_token)
  modify_auth (set_session parsed.tokens.access_token (map_user parsed.user))

-- `err instanceof ApiError && err.status === 401`
abbrev pub is_unauthorized : Thrown → Bool
is_unauthorized (api e) = e.status == 401
is_unauthorized network_error = false
is_unauthorized syntax_error = false
is_unauthorized schema_error = false
is_unauthorized type_error = false

abbrev with_content_type : RequestInit → Option String
with_content_type init = elim init.headers.content_type [
  | some t ↦ some t
  | none ↦ elim init.body [ none ↦ none | some b ↦ some "application/json" ]
]

abbrev with_authorization : Option String → RequestInit → Option String
with_authorization token init = elim init.headers.authorization [
  | some a ↦ some a
  | none ↦ elim (truthy token) [ none ↦ none | some t ↦ some (append "Bearer " t) ]
]

abbrev pub request : Option String → String → RequestInit → Request
request token path init = record {
  path = append api_base path;
  method = init.method;
  headers = record {
    content_type = with_content_type init;
    authorization = with_authorization token init;
  };
  body = init.body;
  no_store = true;
}

unfoldable pub result_of : Response → App (Option Json)
result_of res = if res.status == 204 then pure none else json res >>= λ body. pure (some body)

-- The `catch` block of `refreshSession`.
unfoldable pub expire : Thrown → App (Unit {0})
expire e = do
  if is_unauthorized e then modify_storage clear_refresh_token else pure tt
  modify_auth clear_session
  throw session_expired

-- The test of `apiFetch` for a second try, but for `!opts?._retry`.
unfoldable pub may_refresh : String → Response → Storage → Bool
may_refresh path res storage =
    res.status == 401 && not (path == refresh_path) && is_some (truthy (read_refresh_token storage))

module _ (h : Host) where
  unfoldable pub accept_refresh : Response → App String
  accept_refresh res = do
    guard (is_ok res) (api_error res.status "refresh_failed" "refresh failed")
    body ← json res
    parsed ← or_throw (h.parse_auth_response body) schema_error
    install parsed
    pure parsed.tokens.access_token

  unfoldable pub perform_refresh : App String
  perform_refresh = do
    storage ← get_storage
    token ←
        or_throw (truthy (read_refresh_token storage))
          (api_error 401 "no_refresh_token" "no refresh token")
    res ← fetch h (refresh_request token)
    accept_refresh res

  unfoldable pub refresh_session : App (Unit {0})
  refresh_session = catch (do _ ← perform_refresh; pure tt) expire

  unfoldable pub error_of : Response → ApiError
  error_of res =
      let plain : ApiError = record {
        status = res.status;
        code = "http_error";
        message = nullish (truthy (some res.status_text)) "Request failed";
        details = none;
      } in
      if h.includes (nullish res.content_type "") "application/json"
      then elim res.json [
        | none ↦ plain
        | some body ↦ record {
          status = res.status;
          code = nullish (Json.text (Json.get "error" body)) plain.code;
          message = nullish (Json.text (Json.get "message" body)) plain.message;
          details = Json.get "details" body;
        }
      ]
      else plain

  -- The answer to a request. `again` is the second try, absent in the second try itself.
  unfoldable pub settle : Option (App (Option Json)) → String → Response → App (Option Json)
  settle none path res = if is_ok res then result_of res else throw (api (error_of res))
  settle (some retry) path res =
      if is_ok res
      then result_of res
      else get_storage >>= λ storage.
          if may_refresh path res storage
          then refresh_session >> retry
          else throw (api (error_of res))

  unfoldable pub attempt : Option (App (Option Json)) → String → RequestInit → App (Option Json)
  attempt again path init = do
    auth ← get_auth
    res ← fetch h (request auth.access_token path init)
    settle again path res

  -- `apiFetch(path, init, { _retry: true })`
  unfoldable pub api_fetch_retry : String → RequestInit → App (Option Json)
  api_fetch_retry path init = attempt none path init

  -- `apiFetch(path, init)`
  unfoldable pub api_fetch : String → RequestInit → App (Option Json)
  api_fetch path init = attempt (some (api_fetch_retry path init)) path init
