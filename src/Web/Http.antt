-- ===== src/Web/Http.antt =====
-- Requests and replies of `fetch`, and the errors that an action of the client throws.
use linktheca.Prelude.{ℕ, String, Bool, Option, none, List, ◌&&◌, leb}
use linktheca.Web.Json.{Json}
use linktheca.Auth.Schemas.{RawUser, AuthResponse}

-- The two headers that the client reads or sets; the rest it leaves alone.
pub record Headers : Type 0 where
  pub content_type : Option String
  pub authorization : Option String

abbrev pub no_headers : Headers
no_headers = record { content_type = none; authorization = none }

-- `RequestInit`: what a caller of the client may give. A body is the value that is stringified.
pub record RequestInit : Type 0 where
  pub method : Option String
  pub headers : Headers
  pub body : Option Json

abbrev pub no_init : RequestInit
no_init = record { method = none; headers = no_headers; body = none }

-- What goes over the wire.
pub record Request : Type 0 where
  pub path : String
  pub method : Option String
  pub headers : Headers
  pub body : Option Json
  pub no_store : Bool

-- `json` is `none` if the body is not JSON.
pub record Response : Type 0 where
  pub status : ℕ
  pub status_text : String
  pub content_type : Option String
  pub json : Option Json

pub data Reply : Type 0 where
  failed : Reply
  response : Response → Reply

-- `res.ok`
unfoldable pub is_ok : Response → Bool
is_ok res = leb 200 res.status && leb res.status 299

-- web/src/shared/api/errors.ts
pub record ApiError : Type 0 where
  pub status : ℕ
  pub code : String
  pub message : String
  pub details : Option Json

-- What may be thrown: the client's own error, a failed `fetch`, a body that is not JSON, a body
-- that does not fit its schema, a property read from a value that has none.
pub data Thrown : Type 0 where
  api : ApiError → Thrown
  network_error syntax_error schema_error type_error : Thrown

-- The world outside the client's code: the server behind `fetch`, which may answer by all that was
-- sent before (newest first), the schema validator, and the substring test.
pub record Host : Type 0 where
  pub server : List Request → Request → Reply
  pub parse_auth_response : Json → Option AuthResponse
  pub parse_raw_user : Json → Option RawUser
  pub includes : String → String → Bool
