-- ===== src/Error/Codes.antt =====
-- What a client can tell from an error response.
use spawngate.Base.{
  ◌≡◌, refl, sym, ap, ◌∙◌, Option, none, some, List, [], ◌∷◌, arith, if◌then◌else◌,
}
use spawngate.Base.Text.{Text, text_eq}
use spawngate.Error.{
  ProxyErrorCode, missing_host_header, unknown_host, backend_shutting_down, backend_unhealthy,
  backend_start_failed, backend_config_error, request_timeout, connection_failed, internal_error,
  status_code, as_header_value, json_error_response,
}

-- The code whose header value is the text, out of those listed.
code_of : List ProxyErrorCode → Text → Option ProxyErrorCode
unfolding as_header_value text_eq
code_of [] t = none
code_of (c ∷ cs) t = if text_eq (as_header_value c) t then some c else code_of cs t

abbrev all_codes : List ProxyErrorCode
all_codes =
    missing_host_header ∷ unknown_host ∷ backend_shutting_down ∷ backend_unhealthy
    ∷ backend_start_failed ∷ backend_config_error ∷ request_timeout ∷ connection_failed
    ∷ internal_error ∷ []

code_of-as_header_value : (c : ProxyErrorCode) → code_of all_codes (as_header_value c) ≡ some c
unfolding code_of as_header_value text_eq
code_of-as_header_value missing_host_header = refl
code_of-as_header_value unknown_host = refl
code_of-as_header_value backend_shutting_down = refl
code_of-as_header_value backend_unhealthy = refl
code_of-as_header_value backend_start_failed = refl
code_of-as_header_value backend_config_error = refl
code_of-as_header_value request_timeout = refl
code_of-as_header_value connection_failed = refl
code_of-as_header_value internal_error = refl

some-injective : {a b : ProxyErrorCode} → ◌≡◌ {A = Option ProxyErrorCode} (some a) (some b) → a ≡ b
some-injective e = ground arith

as_header_value-injective : (a b : ProxyErrorCode) → as_header_value a ≡ as_header_value b → a ≡ b
as_header_value-injective a b e =
    some-injective
      (sym (code_of-as_header_value a) ∙ ap (code_of all_codes) e ∙ code_of-as_header_value b)

second_value : List (Text × Text) → Text
second_value [] = []
second_value (x ∷ []) = []
second_value (x ∷ y ∷ rest) = y.1

-- The `X-Proxy-Error` header tells the errors apart: responses with the same headers were made for the
-- same error, and so have the same status, whatever their messages are.
pub json_error_response-headers :
    (a b : ProxyErrorCode) (s t : Text)
    → (json_error_response a s).headers ≡ (json_error_response b t).headers
    → (a ≡ b) × ((json_error_response a s).status ≡ (json_error_response b t).status)
unfolding json_error_response second_value
json_error_response-headers a b s t e =
    let same = as_header_value-injective a b (ap second_value e) in (same, ap status_code same)
