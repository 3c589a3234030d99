-- ===== src/Proxy/Forwarding.antt =====
-- What `handle_request` sends to a backend, and what it leaves behind.
use spawngate.Base.{ℕ, ◌≡◌, true, some, arith, inl, inr, Option-cases, Result-cases}
use spawngate.Base.Text.{Text}
use spawngate.Config.{Duration, BackendConfig, request_timeout}
use spawngate.Process.State.{ready, is_state, ProcessManager, has_backend, get_state, get_config}
use spawngate.Process.Ops.{touch, increment_in_flight}
use spawngate.Process.Steps.{run}
use spawngate.Proxy.Http.{Request}
use spawngate.Proxy.Hostname.{extract_hostname}
use spawngate.Proxy.Ready.{ensure_backend_ready}
use spawngate.Proxy.Request.{
  Context, proxy_headers, request_id_of, forward, dispatch, route, identify, handle_request,
}

-- The manager when the request for `h` is counted: the backend was made ready and touched, and other
-- tasks ran.
abbrev pub counted_at : Context → Text → ProcessManager → ProcessManager
counted_at c h m =
    run (touch c.touched_at h (ensure_backend_ready c.os c.waits h m).0) c.before_count

forward-ready :
    (c : Context) (h : Text) (req sent : Request) (port port' : ℕ) (timeout : Duration)
    (m : ProcessManager)
    → (forward c h req port timeout m).forwarded ≡ some (port', sent)
    → (get_state m h ≡ ready) × (port ≡ port') × (sent ≡ req)
unfolding forward increment_in_flight get_state is_state
forward-ready c h req sent port port' timeout m e = (ground arith, ground arith, ground arith)

-- The request `sent` went to `port` for the backend of `h` of the manager `m`.
record Sent (m : ProcessManager) (h : Text) (req sent : Request) (port : ℕ) : Type 0 where
  config : BackendConfig
  configured : get_config m h ≡ some config
  its_port : config.port ≡ port
  accepting : get_state m h ≡ ready
  same : sent ≡ req

dispatch-Sent :
    (c : Context) (h : Text) (req sent : Request) (port : ℕ) (m : ProcessManager)
    → (dispatch c h req m).forwarded ≡ some (port, sent)
    → Sent (run (touch c.touched_at h m) c.before_count) h req sent port
unfolding dispatch
dispatch-Sent c h req sent port m e =
    elim (Option-cases (get_config (run (touch c.touched_at h m) c.before_count) h)) [
      | inl n ↦ absurd (ground (arith, n))
      | inr (config, g) ↦
          let (r, p, s) =
            forward-ready c h req sent config.port port
              (request_timeout config (run (touch c.touched_at h m) c.before_count).defaults)
              (run (touch c.touched_at h m) c.before_count) (ground (arith, g)) in
          record { config = config; configured = g; its_port = p; accepting = r; same = s }
    ]

route-Sent :
    (c : Context) (h : Text) (req sent : Request) (port : ℕ) (m : ProcessManager)
    → (route c h req m).forwarded ≡ some (port, sent)
    → (has_backend m h ≡ true) × Sent (counted_at c h m) h req sent port
unfolding route
route-Sent c h req sent port m e = (
  ground arith,
  elim (Result-cases (ensure_backend_ready c.os c.waits h m).1) [
    | inl (u, o) ↦
        dispatch-Sent c h req sent port (ensure_backend_ready c.os c.waits h m).0
          (ground (arith, o))
    | inr (x, o) ↦ absurd (ground (arith, o))
  ],
)

-- The request with the headers that the proxy sets.
abbrev pub with_proxy_headers : Context → Request → Request
with_proxy_headers c req = record req {
  headers = proxy_headers c (request_id_of c req) req.headers;
}

identify-Sent :
    (c : Context) (req sent : Request) (port : ℕ) (m : ProcessManager)
    → (identify c req m).forwarded ≡ some (port, sent)
    → (h : Text) × (extract_hostname req ≡ some h)
      × ((has_backend m h ≡ true) × Sent (counted_at c h m) h (with_proxy_headers c req) sent port)
unfolding identify
identify-Sent c req sent port m e = elim (Option-cases (extract_hostname req)) [
  | inl n ↦ absurd (ground (arith, n))
  | inr (h, x) ↦ (h, x, route-Sent c h (with_proxy_headers c req) sent port m (ground (arith, x)))
]

-- A request reaches a backend only under the hostname of its `Host` header, for which a backend is
-- configured; at the port configured for it; while that backend is `Ready`; and with the headers
-- that the proxy sets.
pub handle_request-forwards :
    (c : Context) (req sent : Request) (port : ℕ) (m : ProcessManager)
    → (handle_request c req m).forwarded ≡ some (port, sent)
    → (h : Text) × (config : BackendConfig) × (extract_hostname req ≡ some h)
      × (has_backend m h ≡ true)
      × (get_config (counted_at c h m) h ≡ some config)
      × (config.port ≡ port)
      × (get_state (counted_at c h m) h ≡ ready)
      × (sent ≡ with_proxy_headers c req)
unfolding handle_request
handle_request-forwards c req sent port m e =
    let (h, x, known_sent) = identify-Sent c req sent port m (ground arith) in
    let s = known_sent.1 in
    (h, s.config, x, known_sent.0, s.configured, s.its_port, s.accepting, s.same)
