-- ===== src/Main/Servers.antt =====
-- src/main.rs: the servers that the program starts.
use spawngate.Base.{
  ℕ, ◌*◌, Bool, true, false, ◌&&◌, Option, none, some, ◌++◌, Result, ok, ◌>>=◌, if◌then◌else◌,
  unwrap_or, ltb,
}
use spawngate.Base.Text.{Text, codes}
use spawngate.Base.Number.{to_text}
use spawngate.Config.{AcmeChallengeType, ServerConfig, Config, http_port, https_port}
use spawngate.Process.State.{ProcessManager, new}
use spawngate.Pool.{PoolConfig}
use spawngate.Acme.Challenges.{AcmeManager}
use spawngate.Acme.Order.{context}
use spawngate.Main.Tls.{TlsAcceptor, Host, load_tls}

-- `ProxyServer`, which shares the managers. Its challenges are those of the ACME manager, if it has them.
pub record ProxyServer (A : Type 0) : Type 0 where
  pub bind_addr : A
  pub pool_config : PoolConfig
  pub tls_acceptor : Option TlsAcceptor
  pub https_redirect_port : Option ℕ
  pub acme_challenges : Bool

module _ {A : Type 0} where
  unfoldable pub with_pool_config : A → PoolConfig → ProxyServer A
  with_pool_config bind_addr pool_config = record {
    bind_addr = bind_addr;
    pool_config = pool_config;
    tls_acceptor = none;
    https_redirect_port = none;
    acme_challenges = false;
  }

  unfoldable pub with_tls : TlsAcceptor → ProxyServer A → ProxyServer A
  with_tls acceptor p = record p { tls_acceptor = some acceptor }

  unfoldable pub with_https_redirect : ℕ → ProxyServer A → ProxyServer A
  with_https_redirect port p = record p { https_redirect_port = some port }

  unfoldable pub with_acme_challenges : ProxyServer A → ProxyServer A
  with_acme_challenges p = record p { acme_challenges = true }

-- What is started.
pub record Servers (A K : Type 0) : Type 0 where
  pub manager : ProcessManager
  pub http : Option (ProxyServer A)
  pub https : Option (ProxyServer A)
  pub acme : Option (AcmeManager K)
  pub admin_addr : A
  pub admin_token : Text

unfoldable pub pool_config_of : ServerConfig → PoolConfig
pool_config_of s = record {
  max_idle_per_host = s.pool_max_idle_per_host;
  idle_timeout = s.pool_idle_timeout_secs * 1000;
}

unfoldable pub is_http01 : AcmeChallengeType → Bool
is_http01 AcmeChallengeType.http01 = true
is_http01 AcmeChallengeType.tls_alpn01 = false

-- Whether there are HTTP-01 challenges to answer.
unfoldable pub has_challenges : {K : Type 0} → ServerConfig → Option (AcmeManager K) → Bool
unfolding is_http01
has_challenges s none = false
has_challenges s (some manager) = is_http01 s.acme.challenge_type

module _ {A : Type 0} where
  -- The HTTP server, which answers challenges before it redirects.
  unfoldable pub http_server : ServerConfig → Bool → A → ProxyServer A
  unfolding with_pool_config with_acme_challenges with_https_redirect pool_config_of https_port
  http_server s challenges addr =
      let plain = with_pool_config addr (pool_config_of s) in
      let answering = if challenges then with_acme_challenges plain else plain in
      if s.force_https && ltb 0 (https_port s)
      then with_https_redirect (https_port s) answering
      else answering

-- `parse_addr` reads a socket address.
module _ {A : Type 0} (parse_addr : Text → Result Text A) where
  unfoldable pub address : Text → Text → ℕ → Result Text A
  unfolding context
  address what bind port = context what (parse_addr (bind ++ (codes ":" ++ to_text port)))

  unfoldable pub start_http : ServerConfig → Bool → Result Text (Option (ProxyServer A))
  unfolding http_server address
  start_http s challenges =
      if ltb 0 (http_port s)
      then (do
        addr ← address (codes "Invalid HTTP bind address: ") s.bind (http_port s)
        ok (some (http_server s challenges addr)))
      else ok none

  unfoldable pub start_https :
      ServerConfig → Option TlsAcceptor → Result Text (Option (ProxyServer A))
  unfolding with_pool_config with_tls pool_config_of address https_port
  start_https s none = ok none
  start_https s (some acceptor) =
      if ltb 0 (https_port s)
      then (do
        addr ← address (codes "Invalid HTTPS bind address: ") s.bind (https_port s)
        ok (some (with_tls acceptor (with_pool_config addr (pool_config_of s)))))
      else ok none

  -- `main` from the loaded configuration to the start of the servers, with a fresh token for the admin
  -- API where none is configured.
  unfoldable pub start : (K : Type 0) → Host → Config → Text → Result Text (Servers A K)
  unfolding new load_tls start_http start_https has_challenges address
  start K host config fresh_token = do
    (acceptor, acme) ← load_tls host K config.server
    http ← start_http config.server (has_challenges config.server acme)
    https ← start_https config.server acceptor
    admin_addr ←
        address (codes "Invalid admin bind address: ") (codes "127.0.0.1") config.server.admin_port
    ok (record {
      manager =
          new config.backends config.defaults
            (codes "http://127.0.0.1:" ++ to_text config.server.admin_port);
      http = http;
      https = https;
      acme = acme;
      admin_addr = admin_addr;
      admin_token = unwrap_or config.server.admin_token fresh_token;
    })
