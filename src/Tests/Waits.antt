-- ===== src/Tests/Waits.antt =====
-- Requests that meet a backend that does not run, and the upgrade of a connection.
use spawngate.Base.{◌≡◌, refl, true, false, some, [], ◌∷◌, inl, inr, arith}
use spawngate.Base.Text.{Text, codes, text_eq, before, to_lowercase, lower, contains, starts_with}
use spawngate.Base.Dict.{get, insert, remove, contains_key}
use spawngate.Config.{local_config, request_timeout}
use spawngate.Process.State.{local_child, new, get_config, get_state, is_state, has_backend}
use spawngate.Process.Ops.{touch, insert_process, mark_ready, increment_in_flight}
use spawngate.Process.Steps.{run, step, touches, marks_ready, increments}
use spawngate.Process.Launch.{launch}
use spawngate.Proxy.Http.{Request, header_str}
use spawngate.Proxy.Hostname.{extract_hostname, check_hostname, is_host_char}
use spawngate.Proxy.Ready.{lagged, notified, ensure_backend_ready}
use spawngate.Proxy.Waiting.{Woken, now, later}
use spawngate.Base.Lists.{All}
use spawngate.Base.Strings.{is_whitespace, trim_start, trim}
use spawngate.Proxy.Parse.{parse_upgrade_response}
use spawngate.Proxy.Parse.RoundTrip.{IsHeader, response_text, parse_upgrade_response-response_text}
use spawngate.Proxy.Upgrade.Raw.{visible, request_line}
use spawngate.Base.Strings.Lines.{lacks, lacks-Without}
use spawngate.Proxy.Upgrading.{WrittenFor, handle_request-WrittenFor}
use spawngate.Pool.{backend_request}
use spawngate.Pool.Wire.{Transparent, backend_request-Transparent}
use spawngate.Proxy.Upgrade.{is_upgrade_request, build_upgrade_request}
use spawngate.Proxy.Request.{
  Context, answered, handle_request, challenge_response, redirect_port, proxy_headers, set_if,
  identify, route, dispatch, upgrade, request_id_of,
}
use spawngate.Proxy.Forwarding.{with_proxy_headers}
use spawngate.Proxy.ColdStart.{IsColdStart, IsForwarded, handle_request-cold_start}
use spawngate.Error.{Response, plain}
use spawngate.Tests.Data.{app, app_config, fresh, serving}
use spawngate.Tests.Requests.{context, request, value, handle_request-serving}

abbrev pub page : Response
page = record { status = 200; headers = []; body = plain (codes "hello") }

-- The receiver misses a notification first; then the backend is marked ready between operations on
-- another one.
abbrev cold : Context
cold = record context {
  waits = record {
    stopping_sleep = [];
    launching = touches 1 (codes "other") ∷ [];
    launched_at = 2;
    before_wait = [];
    wakeups =
        record { meanwhile = increments (codes "other") ∷ []; received = lagged }
        ∷ record {
          meanwhile = touches 3 (codes "other") ∷ marks_ready 4 app ∷ [];
          received = notified;
        }
        ∷ [];
  };
  reply = answered page;
}

cold-Woken : Woken app cold.waits.wakeups
unfolding text_eq
cold-Woken =
    later (refl, tt) refl
      (now
        (record {
          before = touches 3 (codes "other") ∷ [];
          after = [];
          now = 4;
          parts = refl;
          before_alone = (refl, tt);
          after_alone = tt;
        })
        (inl refl))

cold-IsColdStart : IsColdStart cold app app_config fresh
unfolding new get_config get_state get text_eq launch local_config
cold-IsColdStart = record {
  configured = refl;
  cold = refl;
  handle = local_child 7;
  launched = refl;
  marked = inr (tt, cold-Woken);
  left_alone = tt;
}

pub cold-host : extract_hostname request ≡ some app
unfolding extract_hostname header_str get text_eq before check_hostname is_host_char to_lowercase
    lower
cold-host = refl

pub cold_plain : is_upgrade_request (with_proxy_headers cold request) ≡ false
unfolding is_upgrade_request header_str get text_eq proxy_headers set_if insert contains_key
cold_plain = refl

handle_request-cold_start_example :
    IsForwarded cold app_config
      (with_proxy_headers cold request)
      (request_timeout app_config fresh.defaults)
      (handle_request cold request fresh)
unfolding challenge_response redirect_port
handle_request-cold_start_example =
    handle_request-cold_start cold request app app_config fresh refl refl cold-host cold_plain
      cold-IsColdStart

abbrev upgrade_header : Text × Text
upgrade_header = (codes "Upgrade", codes "websocket")

by_tests :
    (h : Text × Text)
    → lacks b':' h.0 ≡ true
    → lacks b'\n' h.0 ≡ true
    → trim h.0 ≡ h.0
    → lacks b'\n' h.1 ≡ true
    → trim h.1 ≡ h.1
    → IsHeader h
by_tests h a b c d e = record {
  name_colon = lacks-Without b':' h.0 a;
  name_line = lacks-Without b'\n' h.0 b;
  name_trim = c;
  value_line = lacks-Without b'\n' h.1 d;
  value_trim = e;
}

upgrade_header-IsHeader : IsHeader upgrade_header
unfolding trim trim_start is_whitespace
upgrade_header-IsHeader = by_tests upgrade_header refl refl refl refl refl

parse_upgrade_response-response_text_example :
    parse_upgrade_response (response_text 101 (codes "OK") (upgrade_header ∷ []) (codes "frame"))
    ≡ some (101, upgrade_header ∷ [])
parse_upgrade_response-response_text_example =
    parse_upgrade_response-response_text 101 (codes "OK") (upgrade_header ∷ []) (codes "frame")
      (omega arith) (omega arith) (refl, (refl, tt)) (upgrade_header-IsHeader, tt)

-- A WebSocket, whose client is known by one character.
abbrev socket : Request
socket = record {
  method = codes "GET";
  path = codes "/";
  path_and_query = some (codes "/");
  headers =
      (codes "host", value app)
      ∷ (codes "connection", value (codes "upgrade"))
      ∷ (codes "upgrade", value (codes "ws"))
      ∷ [];
}

abbrev sent_text : Text
sent_text = build_upgrade_request (with_proxy_headers context socket) 3000

socket_raw : (handle_request context socket serving).raw ≡ some (3000, sent_text)
unfolding handle_request run step new insert_process mark_ready is_state get insert remove text_eq
    contains_key extract_hostname header_str before check_hostname is_host_char to_lowercase lower
    touch get_config get_state local_config request_timeout contains ensure_backend_ready
    increment_in_flight challenge_response redirect_port identify route has_backend dispatch
    is_upgrade_request proxy_headers set_if starts_with upgrade
socket_raw = refl

socket_headers-IsHeader : All IsHeader (visible (with_proxy_headers context socket).headers)
unfolding trim trim_start is_whitespace proxy_headers set_if insert remove text_eq get header_str
    request_id_of
socket_headers-IsHeader = (
  by_tests _ refl refl refl refl refl,
  (
    by_tests _ refl refl refl refl refl,
    (
      by_tests _ refl refl refl refl refl,
      (
        by_tests _ refl refl refl refl refl,
        (
          by_tests _ refl refl refl refl refl,
          (by_tests _ refl refl refl refl refl, (by_tests _ refl refl refl refl refl, tt)),
        ),
      ),
    ),
  ),
)

handle_request-WrittenFor_example : WrittenFor context socket serving 3000 sent_text
handle_request-WrittenFor_example =
    handle_request-WrittenFor context socket serving 3000 sent_text socket_raw
      (lacks-Without b'\n' (request_line socket) refl) socket_headers-IsHeader

backend_request-Transparent_example :
    Transparent
      (codes "accept")
      3000
      request
      (backend_request (with_proxy_headers context request) 3000)
backend_request-Transparent_example =
    backend_request-Transparent context request (with_proxy_headers context request) 3000 serving
      (codes "accept") handle_request-serving (ground arith) (ground arith) (ground arith)
      (ground arith)
