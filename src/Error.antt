-- ===== src/Error.antt =====
-- src/error.rs: the errors that a client sees. A body is what it was made from: `serde_json` and
-- the HTTP library write it out.
pub mod Codes
use spawngate.Base.{ℕ, List, [], ◌∷◌, ◌++◌, Option, unwrap_or, if◌then◌else◌, ◌==◌}
use spawngate.Base.Text.{Text, codes}
use spawngate.Base.Number.{to_text}

pub data ProxyErrorCode : Type 0 where
  missing_host_header unknown_host backend_shutting_down backend_unhealthy : ProxyErrorCode
  backend_start_failed backend_config_error request_timeout connection_failed : ProxyErrorCode
  internal_error : ProxyErrorCode

unfoldable pub status_code : ProxyErrorCode → ℕ
status_code missing_host_header = 400
status_code unknown_host = 404
status_code backend_shutting_down = 503
status_code backend_unhealthy = 503
status_code backend_start_failed = 503
status_code backend_config_error = 500
status_code request_timeout = 504
status_code connection_failed = 502
status_code internal_error = 500

unfoldable pub as_header_value : ProxyErrorCode → Text
as_header_value missing_host_header = codes "MISSING_HOST_HEADER"
as_header_value unknown_host = codes "UNKNOWN_HOST"
as_header_value backend_shutting_down = codes "BACKEND_SHUTTING_DOWN"
as_header_value backend_unhealthy = codes "BACKEND_UNHEALTHY"
as_header_value backend_start_failed = codes "BACKEND_START_FAILED"
as_header_value backend_config_error = codes "BACKEND_CONFIG_ERROR"
as_header_value request_timeout = codes "REQUEST_TIMEOUT"
as_header_value connection_failed = codes "CONNECTION_FAILED"
as_header_value internal_error = codes "INTERNAL_ERROR"

pub record ErrorResponse : Type 0 where
  pub status : ℕ
  pub code : ProxyErrorCode
  pub message : Text

-- `ErrorResponse::new`
unfoldable pub error_response : ProxyErrorCode → Text → ErrorResponse
unfolding status_code
error_response code message = record { status = status_code code; code = code; message = message }

-- The body of a response of the backend is known by a number.
pub data Body : Type 0 where
  error_json : ErrorResponse → Body
  plain : Text → Body
  backend_body : ℕ → Body
  empty : Body

pub record Response : Type 0 where
  pub status : ℕ
  pub headers : List (Text × Text)
  pub body : Body

unfoldable pub json_error_response : ProxyErrorCode → Text → Response
unfolding status_code as_header_value error_response
json_error_response code message = record {
  status = status_code code;
  headers =
      (codes "Content-Type", codes "application/json")
      ∷ (codes "X-Proxy-Error", as_header_value code)
      ∷ [];
  body = error_json (error_response code message);
}

-- The text with each quote escaped.
escape_quotes : Text → Text
escape_quotes [] = []
escape_quotes (c ∷ s) =
    let rest = escape_quotes s in if c == b'"' then b'\\' ∷ (b'"' ∷ rest) else c ∷ rest

-- `to_json`, of what `serde_json` writes, with the text that is made where it fails.
unfoldable pub to_json : (ErrorResponse → Option Text) → ErrorResponse → Text
unfolding escape_quotes as_header_value to_text
to_json serialize e = unwrap_or (serialize e) (
    codes "{\"code\":\""
    ++ (as_header_value e.code
        ++ (codes "\",\"message\":\""
            ++ (escape_quotes e.message
                ++ (codes "\",\"status\":" ++ (to_text e.status ++ codes "}"))))))
