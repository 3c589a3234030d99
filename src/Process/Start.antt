-- ===== src/Process/Start.antt =====
-- src/process.rs: `start_backend`.
use spawngate.Base.{ℕ, Bool, ◌||◌, none, some, List, ◌++◌, Result, ok, err, if◌then◌else◌}
use spawngate.Base.Text.{Text, codes}
use spawngate.Config.{BackendConfig, BackendDefaults}
use spawngate.Process.State.{
  starting, ready, is_state, ProcessHandle, ProcessManager, get_config, get_state,
}
use spawngate.Process.Ops.{insert_process}
use spawngate.Process.Steps.{Op, run}
use spawngate.Process.Launch.{Launcher, launch}

-- What `Ok(())` stands for: the backend was there already, or it was started, and a task polls its
-- health with the configuration and the defaults given.
pub data Started : Type 0 where
  already : Started
  polled : BackendConfig → BackendDefaults → Started

unfoldable pub is_running : ProcessManager → Text → Bool
unfolding get_state
is_running m hostname =
    is_state (get_state m hostname) starting || is_state (get_state m hostname) ready

unfoldable pub finish_start :
    ℕ
    → List Op
    → Text
    → BackendConfig
    → ProcessManager × Result Text ProcessHandle
    → ProcessManager × Result Text Started
finish_start now others hostname config (m, err e) = (run m others, err e)
finish_start now others hostname config (m, ok handle) =
    (insert_process now hostname handle (run m others), ok (polled config (run m others).defaults))

-- The check and the insertion are two steps: `others` is what other tasks do while the process or
-- the container is started between them, and `now` is the time of the insertion.
unfoldable pub start_backend :
    Launcher → ℕ → List Op → Text → ProcessManager → ProcessManager × Result Text Started
unfolding get_config is_running finish_start
start_backend os now others hostname m = elim (get_config m hostname) [
  | none ↦ (m, err (codes "Unknown backend: " ++ hostname))
  | some config ↦
      if is_running m hostname
      then (m, ok already)
      else finish_start now others hostname config (launch os config.backend_type hostname config m)
]
