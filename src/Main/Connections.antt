-- ===== src/Main/Connections.antt =====
-- src/proxy.rs: how `ProxyServer::run` hands a connection to the request handler.
use spawngate.Base.{true, false, none, some, if◌then◌else◌}
use spawngate.Base.Text.{Text}
use spawngate.Base.Dict.{Dict}
use spawngate.Proxy.Request.{Context}
use spawngate.Main.Servers.{ProxyServer}

-- `challenges` are those of the ACME manager at the time of a request on the connection.
unfoldable pub connection : {A : Type 0} → ProxyServer A → Dict Text → Context → Context
connection p challenges c = elim p.tls_acceptor [
  | some acceptor ↦ record c { is_tls = true; https_redirect_port = none; acme_challenges = none }
  | none ↦ record c {
    is_tls = false;
    https_redirect_port = p.https_redirect_port;
    acme_challenges = if p.acme_challenges then some challenges else none;
  }
]
