-- ===== src/Process/Cleanup.antt =====
-- src/process.rs: `cleanup_idle_backends`, `stop_all` and `list_backends`.
use spawngate.Base.{
  ℕ, ◌-◌, Bool, false, ◌&&◌, Option, none, some, List, [], ◌∷◌, ◌++◌, ltb, if◌then◌else◌,
}
use spawngate.Base.Text.{Text}
use spawngate.Base.Dict.{Dict, keys}
use spawngate.Config.{BackendConfig, idle_timeout}
use spawngate.Process.State.{
  BackendState, ready, is_state, BackendProcess, ProcessManager, get_config, get_state,
  get_in_flight,
}
use spawngate.Process.Stop.{Action, Weather, stop_backend}

-- The tests of the loop in `cleanup_idle_backends`.
unfoldable pub is_idle : ℕ → ProcessManager → Text → BackendProcess → Bool
unfolding get_config idle_timeout
is_idle now m hostname p = is_state p.state ready && elim (get_config m hostname) [
  | none ↦ false
  | some c ↦ ltb (idle_timeout c m.defaults) (now - p.last_activity)
]

unfoldable pub idle_entries : ℕ → ProcessManager → Dict BackendProcess → List Text
idle_entries now m [] = []
idle_entries now m ((hostname, p) ∷ rest) =
    let others = idle_entries now m rest in
    if is_idle now m hostname p then hostname ∷ others else others

-- The backends to stop.
unfoldable pub idle_backends : ℕ → ProcessManager → List Text
unfolding idle_entries is_idle
idle_backends now m = idle_entries now m m.processes

-- One after the other. Each stop has a weather of its own.
unfoldable pub stop_each :
    (Text → Weather) → List Text → ProcessManager → Option (ProcessManager × List Action)
stop_each env [] m = some (m, [])
stop_each env (hostname ∷ rest) m = elim (stop_backend (env hostname) hostname m) [
  | none ↦ none
  | some (m', acts) ↦ elim (stop_each env rest m') [
    | none ↦ none
    | some (m'', more) ↦ some (m'', acts ++ more)
  ]
]

unfoldable pub cleanup_idle_backends :
    (Text → Weather) → ℕ → ProcessManager → Option (ProcessManager × List Action)
unfolding idle_backends stop_each
cleanup_idle_backends env now m = stop_each env (idle_backends now m) m

unfoldable pub stop_all : (Text → Weather) → ProcessManager → Option (ProcessManager × List Action)
unfolding stop_each
stop_all env m = stop_each env (keys m.processes) m

pub record BackendStatus : Type 0 where
  pub hostname : Text
  pub state : BackendState
  pub port : ℕ
  pub in_flight : ℕ

status_entries : ProcessManager → Dict BackendConfig → List BackendStatus
unfolding get_state get_in_flight
status_entries m [] = []
status_entries m ((hostname, config) ∷ rest) =
    record {
      hostname = hostname;
      state = get_state m hostname;
      port = config.port;
      in_flight = get_in_flight m hostname;
    }
    ∷ status_entries m rest

unfoldable pub list_backends : ProcessManager → List BackendStatus
unfolding status_entries
list_backends m = status_entries m m.configs
