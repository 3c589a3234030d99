-- ===== src/Server/Proxying.antt =====
-- src/proxy.rs: `ProxyServer::run` and `handle_connection`.
use spawngate.Base.{Option, none, some, List, Result, ok, err, if◌then◌else◌, is_some}
use spawngate.Base.Text.{Text}
use spawngate.Base.Dict.{Dict}
use spawngate.Process.State.{ProcessManager}
use spawngate.Proxy.Http.{Request}
use spawngate.Proxy.Request.{Context, Handled, handle_request}
use spawngate.Main.Servers.{ProxyServer}
use spawngate.Main.Connections.{connection}
use spawngate.Server.{Event, Server, listen, accept_loop}

-- A request with what it meets outside of the proxy, and the challenges of the ACME manager then.
pub record Exchange : Type 0 where
  pub challenges : Dict Text
  pub environment : Context
  pub request : Request

module _ {A : Type 0} (p : ProxyServer A) where
  -- The context of a request on the connection from `client_ip`.
  abbrev pub context_of : Text → Exchange → Context
  context_of client_ip x =
      connection p x.challenges (record x.environment { client_ip = client_ip })

  -- The service of `handle_connection`.
  unfoldable pub serve_request : Text → Exchange → ProcessManager → ProcessManager × Option Handled
  serve_request client_ip x m =
      let handled = handle_request (context_of client_ip x) x.request m in
      (handled.manager, if is_some handled.response then some handled else none)

  -- `ProxyServer::run`, with what `TcpListener::bind` gives.
  unfoldable pub run_proxy :
      Result Text (Unit {0})
      → List (Event Text Exchange)
      → ProcessManager
      → Result Text (Server Text ProcessManager Handled)
  unfolding serve_request accept_loop
  run_proxy (err e) events m = err e
  run_proxy (ok _) events m =
      ok (accept_loop (is_some p.tls_acceptor) serve_request (listen m) events)
