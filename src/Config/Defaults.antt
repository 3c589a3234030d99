-- ===== src/Config/Defaults.antt =====
-- src/config.rs: the default values, and `BackendDefaults`. A `Duration` is a number of milliseconds.
use spawngate.Base.{ℕ, ◌*◌}
use spawngate.Base.Text.{Text, codes}

abbrev pub Duration : Type 0
Duration = ℕ

unfoldable pub from_secs : ℕ → Duration
from_secs s = s * 1000

unfoldable pub from_millis : ℕ → Duration
from_millis ms = ms

abbrev pub default_listen_port : ℕ
default_listen_port = 80

abbrev pub default_bind_address : Text
default_bind_address = codes "0.0.0.0"

abbrev pub default_admin_port : ℕ
default_admin_port = 9999

abbrev pub default_pool_max_idle_per_host : ℕ
default_pool_max_idle_per_host = 10

abbrev pub default_pool_idle_timeout : ℕ
default_pool_idle_timeout = 90

abbrev pub default_idle_timeout : ℕ
default_idle_timeout = 600

abbrev pub default_startup_timeout : ℕ
default_startup_timeout = 30

abbrev pub default_health_interval : ℕ
default_health_interval = 100

abbrev pub default_health_path : Text
default_health_path = codes "/health"

abbrev pub default_shutdown_grace_period : ℕ
default_shutdown_grace_period = 10

abbrev pub default_drain_timeout : ℕ
default_drain_timeout = 30

abbrev pub default_request_timeout : ℕ
default_request_timeout = 30

abbrev pub default_ready_health_interval : ℕ
default_ready_health_interval = 5000

abbrev pub default_unhealthy_threshold : ℕ
default_unhealthy_threshold = 3

abbrev pub default_acme_cache_dir : Text
default_acme_cache_dir = codes "./acme_cache"

pub record BackendDefaults : Type 0 where
  pub idle_timeout_secs : ℕ
  pub startup_timeout_secs : ℕ
  pub health_check_interval_ms : ℕ
  pub health_path : Text
  pub shutdown_grace_period_secs : ℕ
  pub drain_timeout_secs : ℕ
  pub request_timeout_secs : ℕ
  pub ready_health_check_interval_ms : ℕ
  pub unhealthy_threshold : ℕ

-- `BackendDefaults::default`
abbrev pub standard_defaults : BackendDefaults
standard_defaults = record {
  idle_timeout_secs = default_idle_timeout;
  startup_timeout_secs = default_startup_timeout;
  health_check_interval_ms = default_health_interval;
  health_path = default_health_path;
  shutdown_grace_period_secs = default_shutdown_grace_period;
  drain_timeout_secs = default_drain_timeout;
  request_timeout_secs = default_request_timeout;
  ready_health_check_interval_ms = default_ready_health_interval;
  unhealthy_threshold = default_unhealthy_threshold;
}
