-- ===== src/Process/State.antt =====
-- src/process.rs: the state of the manager, and the methods that only read it.
--
-- A backend's in-flight counter is shared by reference (`Arc<AtomicUsize>`), so counters live on a
-- heap, `counters`, and a process holds the address of its own. The ready channel of a process is an
-- address too; `sent` counts the notifications sent on it. Time is a number of milliseconds.
use spawngate.Base.{ℕ, ◌^◌, Bool, true, false, Option, none, some, [], ◌==◌, if◌then◌else◌}
use spawngate.Base.Text.{Text}
use spawngate.Base.Dict.{Dict, get, contains_key}
use spawngate.Config.{BackendConfig, BackendDefaults}

pub data BackendState : Type 0 where
  stopped starting ready unhealthy stopping : BackendState

unfoldable pub is_state : BackendState → BackendState → Bool
is_state stopped stopped = true
is_state starting starting = true
is_state ready ready = true
is_state unhealthy unhealthy = true
is_state stopping stopping = true
is_state _ _ = false

-- A Docker client, known by the `docker_host` that it was connected with.
pub record Docker : Type 0 where
  pub endpoint : Option Text

pub data ProcessHandle : Type 0 where
  local_child : ℕ → ProcessHandle
  container : Text → Docker → ProcessHandle

pub record BackendProcess : Type 0 where
  pub handle : ProcessHandle
  pub state : BackendState
  pub last_activity : ℕ
  pub ready_tx : ℕ
  pub in_flight : ℕ
  pub consecutive_failures : ℕ

pub record ProcessManager : Type 0 where
  pub processes : Dict BackendProcess
  pub configs : Dict BackendConfig
  pub defaults : BackendDefaults
  pub admin_url : Text
  pub docker : Option Docker
  pub counters : ℕ → ℕ
  pub sent : ℕ → ℕ
  pub next_id : ℕ

-- `usize` is 64 bits wide.
abbrev pub usize_mod : ℕ
usize_mod = 2 ^ 64

abbrev pub u32_mod : ℕ
u32_mod = 2 ^ 32

abbrev pub write : (ℕ → ℕ) → ℕ → ℕ → ℕ → ℕ
write f a v b = if a == b then v else f b

-- `ProcessManager::new`
unfoldable pub new : Dict BackendConfig → BackendDefaults → Text → ProcessManager
new configs defaults admin_url = record {
  processes = [];
  configs = configs;
  defaults = defaults;
  admin_url = admin_url;
  docker = none;
  counters = λ _. 0;
  sent = λ _. 0;
  next_id = 0;
}

module _ (m : ProcessManager) (hostname : Text) where
  unfoldable pub get_config : Option BackendConfig
  get_config = get hostname m.configs

  unfoldable pub has_backend : Bool
  has_backend = contains_key hostname m.configs

  unfoldable pub get_state : BackendState
  get_state = elim (get hostname m.processes) [ none ↦ stopped | some p ↦ p.state ]

  unfoldable pub is_ready : Bool
  is_ready = is_state get_state ready

  unfoldable pub is_healthy : Bool
  is_healthy = is_state get_state ready

  -- The address of the channel that the receiver listens on.
  unfoldable pub subscribe_ready : Option ℕ
  subscribe_ready = elim (get hostname m.processes) [ none ↦ none | some p ↦ some p.ready_tx ]

  unfoldable pub get_in_flight : ℕ
  get_in_flight = elim (get hostname m.processes) [ none ↦ 0 | some p ↦ m.counters p.in_flight ]

  unfoldable pub get_backend_port : Option ℕ
  get_backend_port = elim get_config [ none ↦ none | some c ↦ some c.port ]

unfoldable pub get_defaults : ProcessManager → BackendDefaults
get_defaults m = m.defaults
