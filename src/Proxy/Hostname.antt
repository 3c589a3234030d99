-- ===== src/Proxy/Hostname.antt =====
-- src/proxy.rs: `extract_hostname` and `build_https_redirect`.
use spawngate.Base.{
  ℕ, Bool, ◌&&◌, ◌||◌, Option, none, some, [], ◌∷◌, ◌++◌, ltb, leb, ◌==◌, if◌then◌else◌, unwrap_or,
}
use spawngate.Base.Text.{Text, codes, before, to_lowercase}
use spawngate.Base.Number.{to_text}
use spawngate.Base.Lists.{length, all}
use spawngate.Error.{Response, plain}
use spawngate.Proxy.Http.{Request, header_str}

abbrev pub max_hostname_len : ℕ
max_hostname_len = 253

unfoldable pub is_ascii_alphanumeric : ℕ → Bool
is_ascii_alphanumeric c =
    (leb b'0' c && leb c b'9') || ((leb b'A' c && leb c b'Z') || (leb b'a' c && leb c b'z'))

unfoldable pub is_host_char : ℕ → Bool
unfolding is_ascii_alphanumeric
is_host_char c = is_ascii_alphanumeric c || (c == b'-' || c == b'.')

-- The checks on the text of the header, once its port is cut off.
unfoldable pub check_hostname : Text → Option Text
unfolding is_host_char to_lowercase
check_hostname hostname =
    if ltb max_hostname_len (length hostname)
    then none
    else if all is_host_char hostname
    then some (to_lowercase hostname)
    else none

unfoldable pub extract_hostname : Request → Option Text
unfolding header_str before check_hostname
extract_hostname req = elim (header_str (codes "host") req) [
  | none ↦ none
  | some h ↦ check_hostname (before b':' h)
]

unfoldable pub redirect_location : Request → ℕ → Text
unfolding header_str before to_text
redirect_location req https_port =
    let host : Text = elim (header_str (codes "host") req) [
      | none ↦ codes "localhost"
      | some h ↦ before b':' h
    ] in
    let path : Text = unwrap_or req.path_and_query (codes "/") in
    if https_port == 443
    then codes "https://" ++ (host ++ path)
    else codes "https://" ++ (host ++ (codes ":" ++ (to_text https_port ++ path)))

unfoldable pub build_https_redirect : Request → ℕ → Response
unfolding redirect_location
build_https_redirect req https_port = record {
  status = 301;
  headers =
      (codes "location", redirect_location req https_port)
      ∷ (codes "content-type", codes "text/plain")
      ∷ [];
  body = plain (codes "Redirecting to HTTPS");
}
