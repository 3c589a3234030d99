-- ===== src/Proxy/Upgrading.antt =====
-- What `handle_request` writes to a backend for an upgrade.
use spawngate.Base.{
  ℕ, ◌≡◌, ap, ◌∙◌, List, [], ◌∷◌, ◌++◌, true, some, arith, inl, inr, Option-cases, Result-cases,
  Bool-cases,
}
use spawngate.Base.Text.{Text}
use spawngate.Config.{BackendConfig}
use spawngate.Process.State.{ProcessManager, has_backend, get_config}
use spawngate.Process.Ops.{touch}
use spawngate.Process.Steps.{run}
use spawngate.Proxy.Http.{Request}
use spawngate.Proxy.Hostname.{extract_hostname}
use spawngate.Proxy.Ready.{ensure_backend_ready}
use spawngate.Base.Lists.{All}
use spawngate.Base.Strings.{lines}
use spawngate.Base.Strings.Lines.{Without}
use spawngate.Proxy.Parse.{parse_headers}
use spawngate.Proxy.Parse.RoundTrip.{IsHeader}
use spawngate.Proxy.Upgrade.Raw.{visible, host_header, request_line, lines-build_upgrade_request}
use spawngate.Proxy.Upgrade.{is_upgrade_request, build_upgrade_request}
use spawngate.Proxy.Request.{Context, upgrade, forward, dispatch, route, identify, handle_request}
use spawngate.Proxy.Forwarding.{counted_at, with_proxy_headers}

-- The raw form of the request went to `port` for the backend of `h` of the manager `m`.
record Written (m : ProcessManager) (h : Text) (req : Request) (port : ℕ) (text : Text)
    : Type 0 where
  config : BackendConfig
  configured : get_config m h ≡ some config
  its_port : config.port ≡ port
  upgrades : is_upgrade_request req ≡ true
  same : text ≡ build_upgrade_request req port

module _ (c : Context) (h : Text) (req : Request) {port : ℕ} {text : Text} where
  dispatch-Written :
      (m : ProcessManager)
      → (dispatch c h req m).raw ≡ some (port, text)
      → Written (run (touch c.touched_at h m) c.before_count) h req port text
  unfolding dispatch upgrade forward
  dispatch-Written m e =
      elim (Option-cases (get_config (run (touch c.touched_at h m) c.before_count) h)) [
        | inl n ↦ absurd (ground (arith, n))
        | inr (config, g) ↦ elim (Bool-cases (is_upgrade_request req)) [
          | inl up ↦ record {
            config = config;
            configured = g;
            its_port = ground (arith, g, up);
            upgrades = up;
            same = ground (arith, g, up);
          }
          | inr plain ↦ absurd (ground (arith, g, plain))
        ]
      ]

  route-Written :
      (m : ProcessManager)
      → (route c h req m).raw ≡ some (port, text)
      → (has_backend m h ≡ true) × Written (counted_at c h m) h req port text
  unfolding route
  route-Written m e = (
    ground arith,
    elim (Result-cases (ensure_backend_ready c.os c.waits h m).1) [
      | inl (u, o) ↦ dispatch-Written (ensure_backend_ready c.os c.waits h m).0 (ground (arith, o))
      | inr (x, o) ↦ absurd (ground (arith, o))
    ],
  )

identify-Written :
    (c : Context) (req : Request) (m : ProcessManager) {port : ℕ} {text : Text}
    → (identify c req m).raw ≡ some (port, text)
    → (h : Text) × (extract_hostname req ≡ some h)
      × ((has_backend m h ≡ true)
          × Written (counted_at c h m) h (with_proxy_headers c req) port text)
unfolding identify
identify-Written c req m e = elim (Option-cases (extract_hostname req)) [
  | inl n ↦ absurd (ground (arith, n))
  | inr (h, x) ↦ (h, x, route-Written c h (with_proxy_headers c req) m (ground (arith, x)))
]

-- The text was written for an upgrade to the backend of `h`, which is configured with that port; it reads
-- as the request line, the headers of the request that are visible ASCII, and the address of the backend
-- as one more `Host` header.
pub record WrittenFor (c : Context) (req : Request) (m : ProcessManager) (port : ℕ) (text : Text)
    : Type 0 where
  pub hostname : Text
  pub of_host : extract_hostname req ≡ some hostname
  pub known : has_backend m hostname ≡ true
  pub config : BackendConfig
  pub configured : get_config (counted_at c hostname m) hostname ≡ some config
  pub its_port : config.port ≡ port
  pub upgrades : is_upgrade_request (with_proxy_headers c req) ≡ true
  pub header_part : List Text
  pub first_line : lines text ≡ request_line req ∷ header_part
  pub headers :
      parse_headers header_part
      ≡ visible (with_proxy_headers c req).headers ++ (host_header port ∷ [])

-- A request is written to a new connection only where it asks for an upgrade and its `Host` header names
-- a configured backend. It is written to the port configured for that, and reads as the client's request
-- line, then the headers that are visible ASCII, with those that the proxy sets, and then the address of
-- the backend as one more Host header, which does not replace the client's; if neither the request line
-- nor a header has a line feed, no name has a colon, and no name or value has white space at its ends.
pub handle_request-WrittenFor :
    (c : Context) (req : Request) (m : ProcessManager) (port : ℕ) (text : Text)
    → (handle_request c req m).raw ≡ some (port, text)
    → Without b'\n' (request_line req)
    → All IsHeader (visible (with_proxy_headers c req).headers)
    → WrittenFor c req m port text
unfolding handle_request
handle_request-WrittenFor c req m port text e one_line hs =
    let (h, x, known_written) = identify-Written c req m (ground arith) in
    let w = known_written.1 in
    let (rest, l, r) = lines-build_upgrade_request (with_proxy_headers c req) port one_line hs in
    record {
      hostname = h;
      of_host = x;
      known = known_written.0;
      config = w.config;
      configured = w.configured;
      its_port = w.its_port;
      upgrades = w.upgrades;
      header_part = rest;
      first_line = ap lines w.same ∙ l;
      headers = r;
    }
