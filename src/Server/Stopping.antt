-- ===== src/Server/Stopping.antt =====
-- The proxy server when the program shuts down.
use spawngate.Base.{ℕ, ◌≡◌, false, List, ◌∷◌, is_some}
use spawngate.Base.Text.{Text}
use spawngate.Process.State.{ProcessManager}
use spawngate.Proxy.Request.{Handled}
use spawngate.Main.Servers.{ProxyServer}
use spawngate.Server.{Event, Server, accept_loop}
use spawngate.Server.Proxying.{Exchange, serve_request}

-- The server does not listen, and has the connections that it had.
pub record Refuses (s final : Server Text ProcessManager Handled) : Type 0 where
  pub deaf : final.listening ≡ false
  pub same : final.connections ≡ s.connections

-- The request was handled as before the shutdown: its answer is the last one, and the manager is what
-- the request left.
pub record ServedLate (n : ℕ) (h : Handled) (s final : Server Text ProcessManager Handled)
    : Type 0 where
  pub accepts_none : Refuses s final
  pub answers : final.answers ≡ (n, h) ∷ s.answers
  pub manager : final.manager ≡ h.manager

module _ {A : Type 0} (p : ProxyServer A) where
  abbrev loop :
      Server Text ProcessManager Handled
      → List (Event Text Exchange)
      → Server Text ProcessManager Handled
  loop s es = accept_loop (is_some p.tls_acceptor) (serve_request p) s es
