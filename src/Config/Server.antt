-- ===== src/Config/Server.antt =====
-- src/config.rs: `ServerConfig` and `AcmeConfig`.
use spawngate.Base.{
  ℕ, Bool, false, ◌&&◌, ◌||◌, not, Option, none, List, [], if◌then◌else◌, unwrap_or, is_some,
}
use spawngate.Base.Text.{Text}
use spawngate.Base.Lists.{is_empty}
use spawngate.Config.Defaults.{
  default_listen_port, default_bind_address, default_admin_port, default_pool_max_idle_per_host,
  default_pool_idle_timeout, default_acme_cache_dir,
}

pub data AcmeChallengeType : Type 0 where
  http01 tls_alpn01 : AcmeChallengeType

pub record AcmeConfig : Type 0 where
  pub enabled : Bool
  pub domains : List Text
  pub email : Option Text
  pub directory_url : Option Text
  pub cache_dir : Text
  pub challenge_type : AcmeChallengeType

-- `AcmeConfig::default`
abbrev pub standard_acme : AcmeConfig
standard_acme = record {
  enabled = false;
  domains = [];
  email = none;
  directory_url = none;
  cache_dir = default_acme_cache_dir;
  challenge_type = http01;
}

pub record ServerConfig : Type 0 where
  pub port : ℕ
  pub tls_port : Option ℕ
  pub bind : Text
  pub admin_port : ℕ
  pub admin_token : Option Text
  pub pool_max_idle_per_host : ℕ
  pub pool_idle_timeout_secs : ℕ
  pub pid_file : Option Text
  pub tls : Bool
  pub tls_cert : Option Text
  pub tls_key : Option Text
  pub force_https : Bool
  pub acme : AcmeConfig

-- `ServerConfig::default`
abbrev pub standard_server : ServerConfig
standard_server = record {
  port = default_listen_port;
  tls_port = none;
  bind = default_bind_address;
  admin_port = default_admin_port;
  admin_token = none;
  pool_max_idle_per_host = default_pool_max_idle_per_host;
  pool_idle_timeout_secs = default_pool_idle_timeout;
  pid_file = none;
  tls = false;
  tls_cert = none;
  tls_key = none;
  force_https = false;
  acme = standard_acme;
}

unfoldable pub acme_enabled : ServerConfig → Bool
acme_enabled s = s.acme.enabled && not (is_empty s.acme.domains)

unfoldable pub has_tls_files : ServerConfig → Bool
has_tls_files s = is_some s.tls_cert && is_some s.tls_key

unfoldable pub tls_enabled : ServerConfig → Bool
unfolding acme_enabled
tls_enabled s = acme_enabled s || (s.tls || (is_some s.tls_cert && is_some s.tls_key))

unfoldable pub http_port : ServerConfig → ℕ
http_port s = s.port

unfoldable pub https_port : ServerConfig → ℕ
unfolding tls_enabled
https_port s = if not (tls_enabled s) then 0 else unwrap_or s.tls_port 443
