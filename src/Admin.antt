-- ===== src/Admin.antt =====
-- src/admin.rs: `check_auth` and `handle_admin_request`.
use spawngate.Base.{
  ℕ, Bool, true, false, ◌&&◌, not, Option, none, some, List, [], ◌∷◌, ◌++◌, if◌then◌else◌,
  unwrap_or,
}
use spawngate.Base.Text.{Text, codes, text_eq, strip_prefix, starts_with}
use spawngate.Base.Lists.{length, is_empty}
use spawngate.Process.State.{ProcessManager}
use spawngate.Process.Ops.{mark_ready}
use spawngate.Process.Cleanup.{BackendStatus, list_backends}
use spawngate.Proxy.Http.{Request, header_str}
pub mod Guard

-- `serde_json` writes the bodies out: the name and the version of the package, and the backends with
-- their number.
pub data AdminBody : Type 0 where
  text : Text → AdminBody
  version_info : AdminBody
  backend_list : List BackendStatus → ℕ → AdminBody

pub record AdminResponse : Type 0 where
  pub status : ℕ
  pub content_type : Option Text
  pub body : AdminBody

unfoldable pub response : ℕ → Text → AdminResponse
response status body = record { status = status; content_type = none; body = text body }

unfoldable pub json_response : ℕ → AdminBody → AdminResponse
json_response status body = record {
  status = status;
  content_type = some (codes "application/json");
  body = body;
}

-- The token, after `Bearer ` or alone.
unfoldable pub check_auth : Request → Text → Bool
unfolding header_str strip_prefix text_eq
check_auth req expected_token = elim (header_str (codes "authorization") req) [
  | none ↦ false
  | some auth ↦ text_eq (unwrap_or (strip_prefix (codes "Bearer ") auth) auth) expected_token
]

unauthorized : AdminResponse
unfolding response
unauthorized = response 401 (codes "unauthorized")

marked : ProcessManager × Bool → ProcessManager × AdminResponse
unfolding response
marked (m, true) = (m, response 200 (codes "ok"))
marked (m, false) = (m, response 404 (codes "backend not starting"))

-- `now` is the time of the request.
unfoldable pub ready_callback : ℕ → Request → Text → ProcessManager → ProcessManager × AdminResponse
unfolding unauthorized marked response check_auth strip_prefix
ready_callback now req auth_token m =
    let hostname = unwrap_or (strip_prefix (codes "/ready/") req.path) [] in
    if not (check_auth req auth_token)
    then (m, unauthorized)
    else if is_empty hostname
    then (m, response 400 (codes "missing hostname"))
    else marked (mark_ready now hostname m)

unfoldable pub backends_reply : Request → Text → ProcessManager → AdminResponse
unfolding unauthorized json_response check_auth list_backends
backends_reply req auth_token m =
    if not (check_auth req auth_token)
    then unauthorized
    else json_response 200 (backend_list (list_backends m) (length (list_backends m)))

-- The arms of the `match` on the method and the path.
pub data Endpoint : Type 0 where
  health version ready backends unknown : Endpoint

unfoldable pub endpoint_of : Request → Endpoint
unfolding text_eq starts_with
endpoint_of req =
    if text_eq req.method (codes "GET") && text_eq req.path (codes "/health")
    then health
    else if text_eq req.method (codes "GET") && text_eq req.path (codes "/version")
    then version
    else if text_eq req.method (codes "POST") && starts_with (codes "/ready/") req.path
    then ready
    else if text_eq req.method (codes "GET") && text_eq req.path (codes "/backends")
    then backends
    else unknown

unfoldable pub answer_at :
    Endpoint → ℕ → Request → Text → ProcessManager → ProcessManager × AdminResponse
unfolding response json_response ready_callback backends_reply
answer_at health now req auth_token m = (m, response 200 (codes "ok"))
answer_at version now req auth_token m = (m, json_response 200 version_info)
answer_at ready now req auth_token m = ready_callback now req auth_token m
answer_at backends now req auth_token m = (m, backends_reply req auth_token m)
answer_at unknown now req auth_token m = (m, response 404 (codes "not found"))

unfoldable pub handle_admin_request :
    ℕ → Request → Text → ProcessManager → ProcessManager × AdminResponse
unfolding endpoint_of answer_at
handle_admin_request now req auth_token m = answer_at (endpoint_of req) now req auth_token m
