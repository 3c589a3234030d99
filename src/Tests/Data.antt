-- ===== src/Tests/Data.antt =====
-- A manager with one configured backend, before and while it serves.
use spawngate.Base.{◌*◌, ◌≡◌, arith, refl, true, some, List, [], ◌∷◌}
use spawngate.Base.Text.{Text, codes, text_eq}
use spawngate.Base.Dict.{get, insert, remove}
use spawngate.Config.{BackendConfig, local_config, standard_defaults}
use spawngate.Process.State.{
  ready, is_state, local_child, BackendProcess, ProcessManager, new, get_in_flight,
}
use spawngate.Process.Ops.{insert_process, mark_ready, mark_stopping, remove_process}
use spawngate.Process.Steps.{Op, step, run, inserts, marks_ready}
use spawngate.Process.Invariant.{WellFormed, new-WellFormed, run-WellFormed}
use spawngate.Process.InFlight.{IsBounded, run-IsBounded}
use spawngate.Process.Stop.{Weather, exited, drain_poll_interval_ms}
use spawngate.Process.Draining.{Sleeps}
use spawngate.Process.Idle.{IsCalm}

abbrev pub app : Text
app = codes "app.local"

abbrev pub app_config : BackendConfig
app_config = local_config (codes "./app") 3000

abbrev pub fresh : ProcessManager
fresh = new ((app, app_config) ∷ []) standard_defaults (codes "http://127.0.0.1:9999")

abbrev pub to_serving : List Op
to_serving = inserts 0 app (local_child 7) ∷ marks_ready 5 app ∷ []

abbrev pub serving : ProcessManager
serving = run fresh to_serving

abbrev pub app_process : BackendProcess
app_process = record {
  handle = local_child 7;
  state = ready;
  last_activity = 5;
  ready_tx = 0;
  in_flight = 0;
  consecutive_failures = 0;
}

pub serving-WellFormed : WellFormed serving
serving-WellFormed = run-WellFormed fresh to_serving (new-WellFormed _ _ _)

pub get-serving : get app serving.processes ≡ some app_process
unfolding run step new insert_process mark_ready is_state get insert remove text_eq
get-serving = refl

fresh-IsBounded : IsBounded fresh
unfolding new
fresh-IsBounded a = ground arith

pub serving-IsBounded : IsBounded serving
serving-IsBounded = run-IsBounded fresh to_serving fresh-IsBounded

pub get_in_flight-serving : get_in_flight serving app ≡ 0
unfolding run step new insert_process mark_ready is_state get insert remove text_eq get_in_flight
get_in_flight-serving = refl

-- Other tasks are quiet, and the process exits when it is asked to.
abbrev pub quiet_weather : Weather
quiet_weather = record {
  before_mark = [];
  during_sleep = λ _. [];
  drained_for = λ n. drain_poll_interval_ms * n;
  has_pid = true;
  waited = exited;
  docker_stops = true;
}

pub quiet_weather-Sleeps : Sleeps quiet_weather
quiet_weather-Sleeps = record { at_least = λ n. ground arith }

pub quiet_weather-IsCalm : IsCalm quiet_weather
quiet_weather-IsCalm = record { marking = tt; sleeping = λ n. tt }

-- The manager and the actions after the backend was stopped.
abbrev pub after_stop : ProcessManager
after_stop = remove_process app (mark_stopping app serving)
