-- ===== src/Process/Stop.antt =====
-- src/process.rs: `stop_backend`, and how a process or a container is ended.
--
-- The task sleeps while requests drain, and other tasks run meanwhile: what they do, and how much
-- time has passed at each poll, is a `Weather`. The order of what is done to the operating system
-- and to Docker is a list of actions.
use spawngate.Base.{
  ℕ, zero, suc, ◌+◌, ◌/◌, Bool, Option, none, some, List, [], ◌∷◌, ◌++◌, ltb, ◌==◌, if◌then◌else◌,
}
use spawngate.Base.Text.{Text}
use spawngate.Base.Dict.{get}
use spawngate.Config.{Duration, from_secs, drain_timeout, shutdown_grace_period}
use spawngate.Process.State.{
  Docker, ProcessHandle, local_child, container, ProcessManager, get_config,
}
use spawngate.Process.Ops.{mark_stopping, remove_process}
use spawngate.Process.Steps.{Op, run}

abbrev pub drain_poll_interval_ms : ℕ
drain_poll_interval_ms = 50

pub data Action : Type 0 where
  sigterm : ℕ → Action
  sigkill : ℕ → Action
  stop_logs : Text → Action
  docker_stop : Text → Docker → ℕ → Action
  docker_kill : Text → Docker → Action
  docker_remove : Text → Docker → Action

-- What `timeout(grace_period, child.wait())` gives.
pub data Waited : Type 0 where
  exited wait_error elapsed : Waited

pub record Weather : Type 0 where
  -- Between the read of the counter and the mark, which take the lock one after the other.
  pub before_mark : List Op
  -- During the sleep that follows the poll, and the time since the start at the poll.
  pub during_sleep : ℕ → List Op
  pub drained_for : ℕ → Duration
  -- `child.id()` is gone once the exit of the process was seen.
  pub has_pid : Bool
  pub waited : Waited
  pub docker_stops : Bool

pub data Drained : Type 0 where
  idle : Drained
  timed_out : ℕ → Drained

-- The loop that polls the counter at address `counter`. `none` means that the fuel ran out.
unfoldable pub drain :
    Weather → ℕ → Duration → ℕ → ℕ → ProcessManager → Option (ProcessManager × Drained)
drain env counter timeout zero n m = none
drain env counter timeout (suc fuel) n m =
    let rest = drain env counter timeout fuel (n + 1) (run m (env.during_sleep n)) in
    if m.counters counter == 0
    then some (m, idle)
    else if ltb timeout (env.drained_for n)
    then some (m, timed_out (m.counters counter))
    else rest

unfoldable pub drain_fuel : Duration → ℕ
drain_fuel timeout = timeout / drain_poll_interval_ms + 2

unfoldable pub stop_local_process : ℕ → Bool → Waited → List Action
stop_local_process pid has_pid waited =
    (if has_pid then sigterm pid ∷ [] else [])
    ++ elim waited [ exited ↦ [] | wait_error ↦ [] | elapsed ↦ sigkill pid ∷ [] ]

unfoldable pub stop_docker_container : Text → Docker → Duration → Bool → List Action
stop_docker_container id docker grace_period stops =
    docker_stop id docker (grace_period / 1000)
    ∷ ((if stops then [] else docker_kill id docker ∷ []) ++ docker_remove id docker ∷ [])

unfoldable pub end_process : Weather → Duration → ProcessHandle → List Action
unfolding stop_local_process stop_docker_container
end_process env grace_period (local_child pid) = stop_local_process pid env.has_pid env.waited
end_process env grace_period (container id docker) =
    stop_logs id ∷ stop_docker_container id docker grace_period env.docker_stops

unfoldable pub stop_timeouts : ProcessManager → Text → Duration × Duration
unfolding get_config drain_timeout shutdown_grace_period from_secs
stop_timeouts m hostname = elim (get_config m hostname) [
  | some c ↦ (drain_timeout c m.defaults, shutdown_grace_period c m.defaults)
  | none ↦
      (from_secs m.defaults.drain_timeout_secs, from_secs m.defaults.shutdown_grace_period_secs)
]

unfoldable pub in_flight_counter : ProcessManager → Text → Option ℕ
in_flight_counter m hostname = elim (get hostname m.processes) [
  | none ↦ none
  | some p ↦ some p.in_flight
]

unfoldable pub drain_if_any : Weather → Option ℕ → Duration → ProcessManager → Option ProcessManager
unfolding drain_fuel
drain_if_any env none timeout m = some m
drain_if_any env (some counter) timeout m =
    elim (drain env counter timeout (drain_fuel timeout) 0 m) [
      | none ↦ none
      | some (m', end) ↦ some m'
    ]

-- Takes the process out of the map and ends it.
unfoldable pub remove_and_end :
    Weather → Duration → Text → ProcessManager → ProcessManager × List Action
remove_and_end env grace_period hostname m = elim (get hostname m.processes) [
  | none ↦ (m, [])
  | some p ↦ (remove_process hostname m, end_process env grace_period p.handle)
]

-- `none` means that the fuel of the drain loop ran out.
unfoldable pub stop_backend :
    Weather → Text → ProcessManager → Option (ProcessManager × List Action)
unfolding stop_timeouts in_flight_counter drain_if_any remove_and_end
stop_backend env hostname m =
    let (timeout, grace_period) = stop_timeouts m hostname in
    let counter = in_flight_counter m hostname in
    let marked = mark_stopping hostname (run m env.before_mark) in
    elim (drain_if_any env counter timeout marked) [
      | none ↦ none
      | some m' ↦ some (remove_and_end env grace_period hostname m')
    ]
