-- ===== src/Proxy/Upgrade.antt =====
-- src/proxy.rs: requests that upgrade the connection, such as a WebSocket's.
pub mod Raw
use spawngate.Base.{
  ℕ, Bool, true, false, ◌&&◌, ◌||◌, Option, none, some, List, [], ◌∷◌, ◌++◌, if◌then◌else◌,
  unwrap_or, not, ◌==◌,
}
use spawngate.Base.Text.{Text, codes, contains, to_lowercase, text_eq}
use spawngate.Base.Number.{to_text}
use spawngate.Base.Dict.{Dict, contains_key}
use spawngate.Proxy.Http.{Request, HeaderValue, HeaderValues, header_str}
use spawngate.Error.{Response, empty, json_error_response, connection_failed, backend_shutting_down}
use spawngate.Proxy.Parse.{parse_upgrade_response}
use spawngate.Process.State.{ProcessManager}
use spawngate.Process.Ops.{increment_in_flight, decrement_in_flight}
use spawngate.Process.Steps.{Op, run}

unfoldable pub is_upgrade_request : Request → Bool
unfolding header_str contains to_lowercase contains_key
is_upgrade_request req =
    elim (header_str (codes "connection") req) [
      | none ↦ false
      | some v ↦ contains (codes "upgrade") (to_lowercase v)
    ]
    && contains_key (codes "upgrade") req.headers

unfoldable pub get_upgrade_type : Request → Option Text
unfolding header_str to_lowercase
get_upgrade_type req = elim (header_str (codes "upgrade") req) [
  | none ↦ none
  | some s ↦ some (to_lowercase s)
]

-- A line for each header whose value is visible ASCII.
header_lines : Dict HeaderValue → Text
header_lines [] = []
header_lines ((name, value) ∷ rest) =
    elim value.to_str [ none ↦ [] | some v ↦ name ++ (codes ": " ++ (v ++ codes "\r\n")) ]
    ++ header_lines rest

unfoldable pub build_upgrade_request : Request → ℕ → Text
unfolding header_lines to_text
build_upgrade_request req port =
    req.method
    ++ (codes " "
        ++ (unwrap_or req.path_and_query (codes "/")
            ++ (codes " HTTP/1.1\r\n"
                ++ (header_lines req.headers
                    ++ (codes "Host: 127.0.0.1:" ++ (to_text port ++ codes "\r\n\r\n"))))))

-- What the backend answers to the raw request: an error of connecting, of writing or of reading, the
-- end of the stream, bytes that are no text, or text.
pub data UpgradeReply : Type 0 where
  connect_failed write_failed read_failed : Text → UpgradeReply
  closed not_utf8 : UpgradeReply
  received : Text → UpgradeReply

add_header : Option Text → Text → Option (List (Text × Text)) → Option (List (Text × Text))
add_header none value headers = none
add_header (some name) value none = none
add_header (some name) value (some headers) = some ((name, value) ∷ headers)

-- `response.header(name, value)` for each value that the HTTP library takes. `none` means that the
-- builder holds an error, as it does once it was given a bad name.
unfoldable pub valid_headers : HeaderValues → List (Text × Text) → Option (List (Text × Text))
unfolding add_header
valid_headers http [] = some []
valid_headers http ((name, value) ∷ rest) = elim (http.from_str value) [
  | none ↦ valid_headers http rest
  | some v ↦ add_header (http.name_of name) value (valid_headers http rest)
]

unfoldable pub is_hop_by_hop : Text → Bool
unfolding to_lowercase text_eq
is_hop_by_hop name =
    text_eq (to_lowercase name) (codes "content-length")
    || text_eq (to_lowercase name) (codes "transfer-encoding")

unfoldable pub switch_headers : HeaderValues → List (Text × Text) → Option (List (Text × Text))
unfolding is_hop_by_hop add_header
switch_headers http [] = some []
switch_headers http ((name, value) ∷ rest) =
    let others = switch_headers http rest in
    if is_hop_by_hop name then others else elim (http.from_str value) [
      | none ↦ others
      | some v ↦ add_header (http.name_of name) value others
    ]

-- Whether the task was spawned that forwards bytes and reports the request as done at its end.
pub data Tunnel : Type 0 where
  refused opened : Tunnel

-- No response means that `expect` panicked, which ends the task of the connection.
abbrev pub UpgradeResult : Type 0
UpgradeResult = Option Response × Tunnel × ProcessManager

abbrev gateway_error : Text → ProcessManager → UpgradeResult
gateway_error message m = (some (json_error_response connection_failed message), refused, m)

built : ℕ → Option (List (Text × Text)) → Option Response
built status none = none
built status (some headers) = some (record { status = status; headers = headers; body = empty })

-- The response is built before the task of the tunnel is spawned.
open_tunnel : Option (List (Text × Text)) → ProcessManager × Bool → UpgradeResult
unfolding built
open_tunnel headers (m, false) = (
  some (json_error_response backend_shutting_down (codes "Backend state changed, please retry")),
  refused,
  m,
)
open_tunnel none (m, true) = (none, refused, m)
open_tunnel (some headers) (m, true) = (built 101 (some headers), opened, m)

answer_parsed :
    HeaderValues → Text → Option (ℕ × List (Text × Text)) → ProcessManager → UpgradeResult
unfolding open_tunnel switch_headers valid_headers built json_error_response
answer_parsed http hostname none m = gateway_error (codes "Invalid upgrade response from backend") m
answer_parsed http hostname (some (status, headers)) m =
    if not (status == 101)
    then (built status (valid_headers http headers), refused, m)
    else open_tunnel (switch_headers http headers) (increment_in_flight hostname m)

-- `meanwhile` is what other tasks do until the backend has answered.
unfoldable pub handle_upgrade :
    HeaderValues → List Op → UpgradeReply → Text → ProcessManager → UpgradeResult
unfolding answer_parsed
handle_upgrade http meanwhile reply hostname m =
    let m' = run m meanwhile in
    elim reply [
      | connect_failed e ↦ gateway_error (codes "Failed to connect to backend: " ++ e) m'
      | write_failed e ↦ gateway_error (codes "Failed to send upgrade request: " ++ e) m'
      | read_failed e ↦ gateway_error (codes "Failed to read backend response: " ++ e) m'
      | closed ↦ gateway_error (codes "Backend closed connection") m'
      | not_utf8 ↦ answer_parsed http hostname none m'
      | received text ↦ answer_parsed http hostname (parse_upgrade_response text) m'
    ]

-- The end of the spawned task.
unfoldable pub close_tunnel : Text → ProcessManager → ProcessManager
unfolding decrement_in_flight
close_tunnel hostname m = decrement_in_flight hostname m
