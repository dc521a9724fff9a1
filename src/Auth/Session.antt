-- ===== src/Auth/Session.antt =====
-- web/src/features/auth/api.ts, use-bootstrap.tsx and use-logout.ts: signing in, signing out, and
-- the session that a page load takes up again.
pub mod Invariant
pub mod SignIn
pub mod SignOut
pub mod Bootstrap
use linktheca.Prelude.{
  String, Option, none, some, nullish, nullish_or, truthy, is_some, true, if◌then◌else◌,
}
use linktheca.Web.Json.{Json, obj, field, nil, str}
use linktheca.Web.Http.{Host, RequestInit, no_headers, no_init, Thrown, schema_error}
use linktheca.Web.App.{
  App, pure, throw, catch, ◌>>=◌, ◌>>◌, get_storage, modify_storage, modify_auth, perform,
  toast_success, navigate, clear_queries,
}
use linktheca.Auth.Storage.{read_refresh_token, clear_refresh_token}
use linktheca.Auth.Store.{User, clear_session}
use linktheca.Auth.Schemas.{map_user}
use linktheca.Api.Client.{or_throw, install, api_fetch, refresh_session}

pub record LoginInput : Type 0 where
  pub email : String
  pub password : String

pub record RegisterInput : Type 0 where
  pub email : String
  pub password : String
  pub display_name : String

abbrev post : Json → RequestInit
post body = record { method = some "POST"; headers = no_headers; body = some body }

abbrev pub login_init : LoginInput → RequestInit
login_init input =
    post (obj (field "email" (str input.email) (field "password" (str input.password) nil)))

abbrev pub register_init : RegisterInput → RequestInit
register_init input = post (
    obj (
      field "email" (str input.email) (
        field "password" (str input.password) (field "display_name" (str input.display_name) nil))))

abbrev pub logout_init : Option String → RequestInit
logout_init token = post (obj (field "refresh_token" (str (nullish token "")) nil))

-- `schema.parse(raw)`, where a 204 gives the parser nothing to read
abbrev pub parse {ℓ} : {A : Type ℓ} → (Json → Option A) → Option Json → Option A
parse p none = none
parse p (some body) = p body

module _ (h : Host) where
  unfoldable pub consume_auth_response : Option Json → App User
  consume_auth_response raw = do
    parsed ← or_throw (parse h.parse_auth_response raw) schema_error
    install parsed
    pure (map_user parsed.user)

  unfoldable pub login : LoginInput → App User
  login input = do raw ← api_fetch h "/auth/login" (login_init input); consume_auth_response raw

  unfoldable pub register : RegisterInput → App User
  register input = do
    raw ← api_fetch h "/auth/register" (register_init input)
    consume_auth_response raw

  unfoldable pub me : App User
  me = do
    raw ← api_fetch h "/auth/me" no_init
    parsed ← or_throw (parse h.parse_raw_user raw) schema_error
    pure (map_user parsed)

  unfoldable pub logout : Option String → App (Unit {0})
  logout refresh_token = do
    storage ← get_storage
    let token = nullish_or refresh_token (read_refresh_token storage)
    _ ← api_fetch h "/auth/logout" (logout_init token)
    pure tt

  -- The function that `useLogout` returns.
  unfoldable pub use_logout : App (Unit {0})
  use_logout = do
    catch (logout none) (λ _. pure tt)
    modify_storage clear_refresh_token
    modify_auth clear_session
    perform clear_queries
    perform (toast_success "Signed out")
    perform (navigate "/login" true)

  -- The effect of `useBootstrap`; its `started` flag makes it run once for each page load.
  unfoldable pub use_bootstrap : App (Unit {0})
  use_bootstrap = get_storage >>= λ storage.
      if is_some (truthy (read_refresh_token storage))
      then catch (refresh_session h) (λ _. pure tt)
      else modify_auth clear_session
