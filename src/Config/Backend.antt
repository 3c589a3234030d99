-- ===== src/Config/Backend.antt =====
-- src/config.rs: `BackendConfig`, its constructors, its accessors and `validate`.
use spawngate.Base.{ℕ, ◌==◌, if◌then◌else◌, Option, none, some, List, [], ◌++◌, Result, ok, err}
use spawngate.Base.{unwrap_or, is_some, not, ◌>>◌}
use spawngate.Base.Text.{Text, codes}
use spawngate.Base.Dict.{Dict}
use spawngate.Config.Defaults.{BackendDefaults, Duration, from_secs, from_millis}

pub data BackendType : Type 0 where
  local docker : BackendType

pub data PullPolicy : Type 0 where
  if_not_present always never : PullPolicy

pub record BackendConfig : Type 0 where
  pub backend_type : BackendType
  pub command : Option Text
  pub args : List Text
  pub working_dir : Option Text
  pub image : Option Text
  pub container_name : Option Text
  pub docker_host : Option Text
  pub network : Option Text
  pub pull_policy : PullPolicy
  pub memory : Option Text
  pub cpus : Option Text
  pub env : Dict Text
  pub port : ℕ
  pub health_path : Option Text
  pub idle_timeout_secs : Option ℕ
  pub startup_timeout_secs : Option ℕ
  pub health_check_interval_ms : Option ℕ
  pub shutdown_grace_period_secs : Option ℕ
  pub drain_timeout_secs : Option ℕ
  pub request_timeout_secs : Option ℕ
  pub ready_health_check_interval_ms : Option ℕ
  pub unhealthy_threshold : Option ℕ

-- `BackendConfig::local`
unfoldable pub local_config : Text → ℕ → BackendConfig
local_config command port = record {
  backend_type = local;
  command = some command;
  args = [];
  working_dir = none;
  image = none;
  container_name = none;
  docker_host = none;
  network = none;
  pull_policy = if_not_present;
  memory = none;
  cpus = none;
  env = [];
  port = port;
  health_path = none;
  idle_timeout_secs = none;
  startup_timeout_secs = none;
  health_check_interval_ms = none;
  shutdown_grace_period_secs = none;
  drain_timeout_secs = none;
  request_timeout_secs = none;
  ready_health_check_interval_ms = none;
  unhealthy_threshold = none;
}

-- `BackendConfig::docker`
unfoldable pub docker_config : Text → ℕ → BackendConfig
docker_config image port = record {
  backend_type = docker;
  command = none;
  args = [];
  working_dir = none;
  image = some image;
  container_name = none;
  docker_host = none;
  network = none;
  pull_policy = if_not_present;
  memory = none;
  cpus = none;
  env = [];
  port = port;
  health_path = none;
  idle_timeout_secs = none;
  startup_timeout_secs = none;
  health_check_interval_ms = none;
  shutdown_grace_period_secs = none;
  drain_timeout_secs = none;
  request_timeout_secs = none;
  ready_health_check_interval_ms = none;
  unhealthy_threshold = none;
}

module _ (c : BackendConfig) (defaults : BackendDefaults) where
  unfoldable pub idle_timeout : Duration
  unfolding from_secs
  idle_timeout = from_secs (unwrap_or c.idle_timeout_secs defaults.idle_timeout_secs)

  unfoldable pub startup_timeout : Duration
  unfolding from_secs
  startup_timeout = from_secs (unwrap_or c.startup_timeout_secs defaults.startup_timeout_secs)

  unfoldable pub health_check_interval : Duration
  unfolding from_millis
  health_check_interval =
      from_millis (unwrap_or c.health_check_interval_ms defaults.health_check_interval_ms)

  unfoldable pub health_path : Text
  health_path = unwrap_or c.health_path defaults.health_path

  unfoldable pub shutdown_grace_period : Duration
  unfolding from_secs
  shutdown_grace_period =
      from_secs (unwrap_or c.shutdown_grace_period_secs defaults.shutdown_grace_period_secs)

  unfoldable pub drain_timeout : Duration
  unfolding from_secs
  drain_timeout = from_secs (unwrap_or c.drain_timeout_secs defaults.drain_timeout_secs)

  unfoldable pub request_timeout : Duration
  unfolding from_secs
  request_timeout = from_secs (unwrap_or c.request_timeout_secs defaults.request_timeout_secs)

  unfoldable pub ready_health_check_interval : Duration
  unfolding from_millis
  ready_health_check_interval =
      from_millis
        (unwrap_or c.ready_health_check_interval_ms defaults.ready_health_check_interval_ms)

  unfoldable pub unhealthy_threshold : ℕ
  unhealthy_threshold = unwrap_or c.unhealthy_threshold defaults.unhealthy_threshold

-- `with_args`, `with_env` and `with_working_dir` of the builder
unfoldable pub with_args : List Text → BackendConfig → BackendConfig
with_args args c = record c { args = args }

unfoldable pub with_env : Dict Text → BackendConfig → BackendConfig
with_env env c = record c { env = env }

unfoldable pub with_working_dir : Text → BackendConfig → BackendConfig
with_working_dir dir c = record c { working_dir = some dir }

-- The field that the backend's type requires is there.
required_field : BackendConfig → BackendType → Text → Result Text (Unit {0})
required_field c local hostname =
    if not (is_some c.command)
    then err (codes "Backend '" ++ (hostname ++ codes "': local backend requires 'command' field"))
    else ok tt
required_field c docker hostname =
    if not (is_some c.image)
    then err (codes "Backend '" ++ (hostname ++ codes "': Docker backend requires 'image' field"))
    else ok tt

-- `BackendConfig::validate`
unfoldable pub validate_backend : BackendConfig → Text → Result Text (Unit {0})
unfolding required_field
validate_backend c hostname = do
  required_field c c.backend_type hostname
  if c.port == 0
      then err (codes "Backend '" ++ (hostname ++ codes "': 'port' must be greater than 0"))
      else ok tt
