-- ===== src/Proxy/Request.antt =====
-- src/proxy.rs: `handle_request`.
use spawngate.Base.{
  ℕ, ◌/◌, Bool, true, false, Option, none, some, List, [], ◌∷◌, ◌++◌, Result, ok, err,
  if◌then◌else◌, unwrap_or, not,
}
use spawngate.Base.Text.{Text, codes, strip_prefix}
use spawngate.Base.Number.{to_text}
use spawngate.Base.Dict.{Dict, get, insert}
use spawngate.Config.{Duration, request_timeout}
use spawngate.Error
use spawngate.Error.{Response, plain, json_error_response}
use spawngate.Process.State.{
  stopping, unhealthy, is_state, ProcessManager, has_backend, get_state, get_config,
}
use spawngate.Process.Ops.{touch, increment_in_flight, decrement_in_flight}
use spawngate.Process.Steps.{Op, run}
use spawngate.Process.Launch.{Launcher}
use spawngate.Proxy.Http.{Request, HeaderValue, HeaderValues, header_str}
use spawngate.Proxy.Hostname.{extract_hostname, build_https_redirect}
use spawngate.Proxy.Ready.{Waits, ensure_backend_ready}
use spawngate.Proxy.Upgrade.{
  is_upgrade_request, build_upgrade_request, connect_failed, UpgradeReply, Tunnel, refused,
  handle_upgrade,
}

abbrev pub acme_challenge_prefix : Text
acme_challenge_prefix = codes "/.well-known/acme-challenge/"

-- What the connection is, and what the request meets outside of the proxy.
pub data BackendReply : Type 0 where
  answered : Response → BackendReply
  failed : Text → BackendReply
  timed_out : BackendReply

pub record Context : Type 0 where
  pub os : Launcher
  pub http : HeaderValues
  pub client_ip : Text
  pub is_tls : Bool
  pub https_redirect_port : Option ℕ
  -- the tokens and key authorizations of HTTP-01, where the server has them
  pub acme_challenges : Option (Dict Text)
  pub uuid : Text
  pub waits : Waits
  pub touched_at : ℕ
  -- what other tasks do before the request is counted, and until it is answered
  pub before_count : List Op
  pub meanwhile : List Op
  pub reply : BackendReply
  pub upgrade_reply : UpgradeReply

-- The response, if the task did not panic; the request that was handed to the HTTP client for a backend,
-- or the text that was handed to a new connection to it, each with the port it goes to; whether a
-- tunnel was opened; and the manager.
pub record Handled : Type 0 where
  pub response : Option Response
  pub forwarded : Option (ℕ × Request)
  pub raw : Option (ℕ × Text)
  pub tunnel : Tunnel
  pub manager : ProcessManager

abbrev pub reply_with : ProcessManager → Response → Handled
reply_with m r = record {
  response = some r;
  forwarded = none;
  raw = none;
  tunnel = refused;
  manager = m;
}

unfoldable pub challenge_response : Context → Request → Option Response
unfolding strip_prefix get
challenge_response c req = elim c.acme_challenges [
  | none ↦ none
  | some challenges ↦ elim (strip_prefix acme_challenge_prefix req.path) [
    | none ↦ none
    | some token ↦ elim (get token challenges) [
      | none ↦ none
      | some key_auth ↦ some (record {
        status = 200;
        headers = (codes "content-type", codes "text/plain") ∷ [];
        body = plain key_auth;
      })
    ]
  ]
]

unfoldable pub set_if : Text → Option HeaderValue → Dict HeaderValue → Dict HeaderValue
set_if name none headers = headers
set_if name (some v) headers = insert name v headers

abbrev pub proto : Context → Text
proto c = if c.is_tls then codes "https" else codes "http"

-- The headers that the proxy sets. An invalid value leaves the client's.
unfoldable pub proxy_headers : Context → Text → Dict HeaderValue → Dict HeaderValue
proxy_headers c request_id headers =
    let with_id = set_if (codes "x-request-id") (c.http.from_str request_id) headers in
    let with_for = set_if (codes "x-forwarded-for") (c.http.from_str c.client_ip) with_id in
    let with_host = set_if (codes "x-forwarded-host") (get (codes "host") with_for) with_for in
    insert (codes "x-forwarded-proto") (c.http.from_static (proto c)) with_host

unfoldable pub request_id_of : Context → Request → Text
unfolding header_str
request_id_of c req = unwrap_or (header_str (codes "x-request-id") req) c.uuid

unfoldable pub answer : Duration → BackendReply → Response
unfolding json_error_response
answer timeout (answered r) = r
answer timeout (failed e) =
    json_error_response Error.connection_failed (codes "Failed to connect to backend")
answer timeout timed_out =
    json_error_response Error.request_timeout
      (codes "Request timed out after " ++ (to_text (timeout / 1000) ++ codes " seconds"))

forward_if : Context → Text → Request → ℕ → Duration → ProcessManager × Bool → Handled
unfolding answer json_error_response decrement_in_flight
forward_if c hostname req port timeout (m, false) =
    reply_with m (
      json_error_response Error.backend_shutting_down (codes "Backend state changed, please retry"))
forward_if c hostname req port timeout (m, true) = record {
  response = some (answer timeout c.reply);
  forwarded = some (port, req);
  raw = none;
  tunnel = refused;
  manager = decrement_in_flight hostname (run m c.meanwhile);
}

-- Counts the request, sends it to the backend under the timeout, and takes it off the count.
unfoldable pub forward : Context → Text → Request → ℕ → Duration → ProcessManager → Handled
unfolding forward_if
forward c hostname req port timeout m =
    forward_if c hostname req port timeout (increment_in_flight hostname m)

-- The request is written once the connection is there.
raw_request : UpgradeReply → Request → ℕ → Option (ℕ × Text)
unfolding build_upgrade_request
raw_request (connect_failed e) req port = none
raw_request _ req port = some (port, build_upgrade_request req port)

unfoldable pub upgrade : Context → Text → Request → ℕ → ProcessManager → Handled
unfolding raw_request
upgrade c hostname req port m =
    let (r, t, m') = handle_upgrade c.http c.meanwhile c.upgrade_reply hostname m in
    record {
      response = r;
      forwarded = none;
      raw = raw_request c.upgrade_reply req port;
      tunnel = t;
      manager = m';
    }

-- Once the backend was found ready.
unfoldable pub dispatch : Context → Text → Request → ProcessManager → Handled
unfolding upgrade
dispatch c hostname req m =
    let touched = run (touch c.touched_at hostname m) c.before_count in
    elim (get_config touched hostname) [
      | none ↦
          reply_with touched (
            json_error_response Error.backend_config_error
              (codes "Backend configuration not found"))
      | some config ↦
          if is_upgrade_request req
          then upgrade c hostname req config.port touched
          else forward c hostname req config.port (request_timeout config touched.defaults) touched
    ]

after_ready : Context → Text → Request → ProcessManager × Result Text (Unit {0}) → Handled
unfolding json_error_response
after_ready c hostname req (m, ok _) = dispatch c hostname req m
after_ready c hostname req (m, err e) =
    reply_with m (json_error_response Error.backend_start_failed (codes "Backend unavailable"))

-- Once the host is known.
unfoldable pub route : Context → Text → Request → ProcessManager → Handled
unfolding after_ready
route c hostname req m =
    if not (has_backend m hostname)
    then reply_with m
        (json_error_response Error.unknown_host (codes "Unknown or unconfigured host"))
    else if is_state (get_state m hostname) stopping
    then reply_with m (
        json_error_response Error.backend_shutting_down
          (codes "Backend is shutting down, please retry later"))
    else if is_state (get_state m hostname) unhealthy
    then reply_with m (
        json_error_response Error.backend_unhealthy
          (codes "Backend is currently unhealthy, auto-restart in progress"))
    else after_ready c hostname req (ensure_backend_ready c.os c.waits hostname m)

unfoldable pub identify : Context → Request → ProcessManager → Handled
identify c req m = elim (extract_hostname req) [
  | none ↦
      reply_with m
        (json_error_response Error.missing_host_header (codes "Missing or invalid Host header"))
  | some hostname ↦
      route c hostname (record req { headers = proxy_headers c (request_id_of c req) req.headers })
        m
]

unfoldable pub redirect_port : Context → Option ℕ
redirect_port c = if c.is_tls then none else c.https_redirect_port

unfoldable pub handle_request : Context → Request → ProcessManager → Handled
handle_request c req m = elim (challenge_response c req) [
  | some r ↦ reply_with m r
  | none ↦ elim (redirect_port c) [
    | some port ↦ reply_with m (build_https_redirect req port)
    | none ↦ identify c req m
  ]
]
