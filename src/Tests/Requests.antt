-- ===== src/Tests/Requests.antt =====
-- Requests for the backend, and what it gets of them.
use spawngate.Base.{if◌then◌else◌, none, Option, ◌≢◌, ◌⊎◌}
use spawngate.Base.{◌+◌, ◌%◌, ◌≡◌, inr, arith, refl, true, false, Option, none, some, [], ◌∷◌, ◌++◌}
use spawngate.Base.Text.{Text, codes, text_eq, before, to_lowercase, lower, contains}
use spawngate.Base.Dict.{Dict, get, insert, remove, contains_key}
use spawngate.Config.{BackendConfig, local_config, request_timeout}
use spawngate.Process.State.{
  ready, is_state, new, get_config, get_state, get_in_flight, has_backend, usize_mod,
}
use spawngate.Process.Ops.{insert_process, mark_ready, increment_in_flight, touch}
use spawngate.Process.Steps.{run, step, increments}
use spawngate.Process.Counters.{accepted, finished}
use spawngate.Proxy.Http.{Request, HeaderValue, HeaderValues, header_str}
use spawngate.Proxy.Hostname.{extract_hostname, check_hostname, is_host_char}
use spawngate.Proxy.Hostnames.{IsHostname, extract_hostname-IsHostname}
use spawngate.Proxy.Ready.{ensure_backend_ready}
use spawngate.Proxy.Upgrade.{
  UpgradeReply, received, refused, opened, handle_upgrade, close_tunnel, is_upgrade_request,
}
use spawngate.Proxy.Parse.{parse_upgrade_response}
use spawngate.Proxy.Request.{
  Context, timed_out, proto, proxy_headers, forward, handle_request, challenge_response,
  redirect_port, identify, route, dispatch, set_if,
}
use spawngate.Proxy.Forwarding.{counted_at, with_proxy_headers, handle_request-forwards}
use spawngate.Proxy.Headers.{str_of, str_of-proxy_headers}
use spawngate.Error.{ProxyErrorCode, connection_failed}
use spawngate.Proxy.Refusals.{Untouched, IsUnknown, handle_request-unknown}
use spawngate.Proxy.Leaking.{leaked_count, BadName}
use spawngate.Proxy.Counting.{forward-balance, tunnel-balance}
use spawngate.Tests.Data.{app, serving, app_process, serving-WellFormed, get-serving}
use spawngate.Tests.Launches.{good_os}

abbrev pub value : Text → HeaderValue
value t = record { to_str = some t }

pub to_str-value :
    (t : Text) (v : HeaderValue)
    → ◌≡◌ {A = Option HeaderValue} (some (value t)) (some v)
    → v.to_str ≡ some t
to_str-value t v e = ground arith

-- An HTTP library that takes every text.
abbrev pub http : HeaderValues
http = record {
  from_str = λ t. some (value t);
  from_static = value;
  name_of = λ t. if text_eq t (codes "Bad name") then none else some t;
  to_str-from_str = to_str-value;
  to_str-from_static = λ t known. refl;
}

abbrev pub request : Request
request = record {
  method = codes "GET";
  path = codes "/api";
  path_and_query = some (codes "/api?x=1");
  headers =
      (codes "host", value (codes "App.local:80"))
      ∷ (codes "accept", value (codes "text/html"))
      ∷ [];
}

-- The backend does not answer in time, and one more request comes meanwhile.
abbrev pub context : Context
context = record {
  os = good_os;
  http = http;
  client_ip = codes "10.1.2.3";
  is_tls = false;
  https_redirect_port = none;
  acme_challenges = none;
  uuid = codes "5bb4";
  waits = record {
    stopping_sleep = [];
    launching = [];
    launched_at = 0;
    before_wait = [];
    wakeups = [];
  };
  touched_at = 40;
  before_count = [];
  meanwhile = increments app ∷ [];
  reply = timed_out;
  upgrade_reply = received [];
}

extract_hostname-request : extract_hostname request ≡ some app
unfolding extract_hostname header_str get text_eq before check_hostname is_host_char to_lowercase
    lower
extract_hostname-request = refl

extract_hostname-IsHostname_example : IsHostname app
extract_hostname-IsHostname_example =
    extract_hostname-IsHostname request app extract_hostname-request

app-IsHostname : IsHostname app
app-IsHostname = extract_hostname-IsHostname request app extract_hostname-request

-- The same request, with a lower-case host.
abbrev lower_request : Request
lower_request = record request { headers = (codes "host", value (codes "app.local:80")) ∷ [] }

header_str-lower_request :
    header_str (codes "host") lower_request ≡ some (app ++ (b':' ∷ codes "80"))
unfolding header_str get text_eq
header_str-lower_request = refl

increment-serving : (increment_in_flight app serving).1 ≡ true
unfolding increment_in_flight run step new insert_process mark_ready is_state get insert remove
    text_eq
increment-serving = refl

forward-balance_example :
    (get_in_flight (forward context app request 3000 30000 serving).manager app
        + finished app (increments app ∷ []))
      % usize_mod
    ≡ (get_in_flight serving app
        + accepted app (increment_in_flight app serving).0 (increments app ∷ []))
      % usize_mod
forward-balance_example =
    forward-balance context app request 3000 30000 serving app_process serving-WellFormed
      get-serving (tt, tt) increment-serving

pub handle_request-serving :
    (handle_request context request serving).forwarded
    ≡ some (3000, with_proxy_headers context request)
unfolding handle_request run step new insert_process mark_ready is_state get insert remove text_eq
    contains_key extract_hostname header_str before check_hostname is_host_char to_lowercase lower
    touch get_config get_state local_config request_timeout contains ensure_backend_ready
    increment_in_flight challenge_response redirect_port identify route has_backend dispatch
    is_upgrade_request proxy_headers set_if forward
handle_request-serving = refl

handle_request-forwards_example :
    (h : Text) × (config : BackendConfig) × (extract_hostname request ≡ some h)
    × (has_backend serving h ≡ true)
    × (get_config (counted_at context h serving) h ≡ some config)
    × (config.port ≡ 3000)
    × (get_state (counted_at context h serving) h ≡ ready)
    × (with_proxy_headers context request ≡ with_proxy_headers context request)
handle_request-forwards_example =
    handle_request-forwards context request (with_proxy_headers context request) 3000 serving
      handle_request-serving

-- The backend switches protocols.
abbrev switched : UpgradeReply
switched = received (codes "HTTP/1.1 101 Switching Protocols\r\nUpgrade: websocket\r\n\r\n")

handle_upgrade-switched : (handle_upgrade http [] switched app serving).1 ≡ opened
unfolding handle_upgrade run step new insert_process mark_ready is_state get insert remove text_eq
    increment_in_flight parse_upgrade_response
handle_upgrade-switched = refl

tunnel-balance_example :
    (app_process.state ≡ ready)
    × ((get_in_flight
              (run (handle_upgrade http [] switched app serving).2 (increments app ∷ []))
              app
            + finished app (increments app ∷ []))
          % usize_mod
        ≡ (get_in_flight (run serving []) app
            + 1
            + accepted app (increment_in_flight app (run serving [])).0 (increments app ∷ []))
          % usize_mod)
    × ((get_in_flight
              (close_tunnel app
                (run (handle_upgrade http [] switched app serving).2 (increments app ∷ [])))
              app
            + finished app (increments app ∷ []))
          % usize_mod
        ≡ (get_in_flight (run serving []) app
            + accepted app (increment_in_flight app (run serving [])).0 (increments app ∷ []))
          % usize_mod)
unfolding run new
tunnel-balance_example =
    tunnel-balance http [] (increments app ∷ []) switched app serving app_process serving-WellFormed
      get-serving (tt, tt) handle_upgrade-switched

-- The backend switches protocols with a header that has a space in its name.
abbrev bad_switch : Text
bad_switch = codes "HTTP/1.1 101 Switching Protocols\r\nBad name: 1\r\n\r\n"

parse-bad_switch :
    parse_upgrade_response bad_switch ≡ some (101, (codes "Bad name", codes "1") ∷ [])
unfolding parse_upgrade_response
parse-bad_switch = refl

get_state-serving : get_state (run serving []) app ≡ ready
unfolding get_state get text_eq run new step mark_ready insert_process insert is_state
get_state-serving = refl

leaked_count_example :
    (get_in_flight (handle_upgrade http [] (received bad_switch) app serving).2 app
      ≡ (get_in_flight (run serving []) app + 1) % usize_mod)
    × ((BadName http ((codes "Bad name", codes "1") ∷ [])
          × ((handle_upgrade http [] (received bad_switch) app serving).0 ≡ none)
          × ((handle_upgrade http [] (received bad_switch) app serving).1 ≡ refused))
        ⊎ ((¬ BadName http ((codes "Bad name", codes "1") ∷ []))
            × ((handle_upgrade http [] (received bad_switch) app serving).0 ≢ none)
            × ((handle_upgrade http [] (received bad_switch) app serving).1 ≡ opened)))
leaked_count_example =
    leaked_count http [] bad_switch ((codes "Bad name", codes "1") ∷ []) app serving
      parse-bad_switch get_state-serving

-- A client that claims another address.
abbrev spoofed : Dict HeaderValue
spoofed =
    (codes "host", value app)
    ∷ (codes "x-forwarded-for", value (codes "127.0.0.1"))
    ∷ (codes "accept", value (codes "text/html"))
    ∷ []

get-host : get (codes "host") spoofed ≡ some (value app)
unfolding get text_eq
get-host = refl

str_of-proxy_headers_example :
    (str_of (codes "x-forwarded-for") (proxy_headers context (codes "5bb4") spoofed)
      ≡ some (codes "10.1.2.3"))
    × (get (codes "x-forwarded-host") (proxy_headers context (codes "5bb4") spoofed)
        ≡ some (value app))
    × (str_of (codes "x-forwarded-proto") (proxy_headers context (codes "5bb4") spoofed)
        ≡ some (proto context))
str_of-proxy_headers_example =
    str_of-proxy_headers context (codes "5bb4") spoofed (value (codes "10.1.2.3")) (value app) refl
      get-host

abbrev connection_error : ProxyErrorCode
connection_error = connection_failed

abbrev unknown_request : Request
unknown_request = record request { headers = (codes "host", value (codes "no.local")) ∷ [] }

unknown_request-IsUnknown : IsUnknown unknown_request serving
unfolding extract_hostname header_str get text_eq before check_hostname is_host_char to_lowercase
    lower has_backend contains_key new insert_process mark_ready run step is_state insert remove
unknown_request-IsUnknown = inr (codes "no.local", refl, refl)

handle_request-unknown_example : Untouched serving (handle_request context unknown_request serving)
handle_request-unknown_example =
    handle_request-unknown context unknown_request serving unknown_request-IsUnknown

abbrev redirecting : Context
redirecting = record context { https_redirect_port = some 443 }
