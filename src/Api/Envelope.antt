-- ===== src/Api/Envelope.antt =====
-- The errors of the server, which it writes with WriteError of internal/core/httpx/responses.go, as
-- apiFetch of web/src/shared/api/client.ts throws them.
use linktheca.Prelude.{
  ℕ, String, ◌≡◌, refl, ◌∙◌, true, false, none, some, ◌==◌, string_eq, arith, if◌then◌else◌,
}
use linktheca.Web.Json.{str, obj, Fields, field, nil}
use linktheca.Web.Http.{ApiError, Host, RequestInit, Response, response, is_ok, api}
use linktheca.Web.App.{World, err}
use linktheca.Api.Client.{request, may_refresh, error_of, api_fetch}
use linktheca.Api.Client.Retrying.{after_request}
use linktheca.Api.Client.Requests.{api_fetch_answered}

-- `json:"message,omitempty"`
abbrev message_field : String → Fields
message_field message = if message == "" then nil else field "message" (str message) nil

-- `WriteError`; the text of the status is the protocol's.
unfoldable pub write_error : String → ℕ → String → String → Response
write_error status_text status code message = record {
  status = status;
  status_text = status_text;
  content_type = some "application/json";
  json = some (obj (field "error" (str code) (message_field message)));
}

-- What is to be read of it.
abbrev pub read_error : String → ℕ → String → String → ApiError
read_error status_text status code message = record {
  status = status;
  code = code;
  message =
      if message == ""
      then if status_text == "" then "Request failed" else status_text
      else message;
  details = none;
}

module _ (h : Host) where
  error_of-write_error :
      (status_text : String) (status : ℕ) (code message : String)
      → h.includes "application/json" "application/json" ≡ true
      → error_of h (write_error status_text status code message)
        ≡ read_error status_text status code message
  unfolding error_of write_error
  error_of-write_error status_text status code message inc = rw inc (ground arith)

  -- If the server writes an error with a code and a message as the answer to a call, the status is
  -- no success and does not allow a refresh, and the media type application/json is found in
  -- itself, then apiFetch, after one request, throws an API error with this status, this code and
  -- this message, and no details; for an empty message it has the text of the status, or "Request
  -- failed" if that is empty too.
  pub api_fetch-write_error :
      (path : String) (init : RequestInit) (w : World) (status_text : String) (status : ℕ)
      (code message : String)
      → h.includes "application/json" "application/json" ≡ true
      → is_ok (write_error status_text status code message) ≡ false
      → may_refresh path (write_error status_text status code message) w.storage ≡ false
      → h.server w.sent (request w.auth.access_token path init)
        ≡ response (write_error status_text status code message)
      → api_fetch h path init w
        ≡ (err (api (read_error status_text status code message)), after_request h path init w)
  api_fetch-write_error path init w status_text status code message inc bad final a =
      let res = write_error status_text status code message in
      api_fetch_answered h path init w res a final
      ∙ rw (bad, error_of-write_error status_text status code message inc) refl
