-- ===== src/Process/Health.antt =====
-- src/process.rs: `check_health`, `poll_health` and `spawn_auto_restart`.
use spawngate.Base.{
  ℕ, Bool, true, false, ◌&&◌, not, Option, none, some, List, [], ◌∷◌, ◌++◌, Result, ltb, leb,
  if◌then◌else◌, unwrap_or,
}
use spawngate.Base.Text.{Text, codes, strip_prefix}
use spawngate.Base.Number.{to_text, parse_u16}
use spawngate.Base.Strings.{split_once, split_whitespace, second}
use spawngate.Config.{
  Duration, BackendConfig, BackendDefaults, health_path, startup_timeout, unhealthy_threshold,
}
use spawngate.Process.State.{
  BackendState, stopped, starting, ready, unhealthy, stopping, is_state, ProcessManager, get_state,
}
use spawngate.Process.Ops.{mark_ready, record_health_failure, reset_health_failures}
use spawngate.Process.Steps.{Op, run}
use spawngate.Process.Launch.{Launcher}
use spawngate.Process.Start.{Started, start_backend}
use spawngate.Process.Stop.{Action, Weather, stop_backend}

unfoldable pub health_url : BackendConfig → BackendDefaults → Text
unfolding health_path
health_url c defaults = codes "http://127.0.0.1:" ++ (to_text c.port ++ health_path c defaults)

-- The address to connect to, and the path to ask for.
unfoldable pub health_target : Text → Text × Text
unfolding strip_prefix split_once
health_target url =
    let rest = unwrap_or (strip_prefix (codes "http://") url) url in
    elim (split_once b'/' rest) [
      | none ↦ (rest, codes "/")
      | some (host_port, path) ↦ (host_port, b'/' ∷ path)
    ]

unfoldable pub health_request : Text → Text
unfolding health_target
health_request url =
    let (host_port, path) = health_target url in
    codes "GET "
    ++ (path
        ++ (codes " HTTP/1.1\r\nHost: " ++ (host_port ++ codes "\r\nConnection: close\r\n\r\n")))

-- What the request meets: a connection that fails or takes over 2 seconds, an error of writing, an
-- error of reading or over 2 seconds of it, or a status line.
pub data Probe : Type 0 where
  not_connected not_written not_read : Probe
  status_line : Text → Probe

is_success : Option Text → Bool
unfolding parse_u16
is_success none = false
is_success (some code) = elim (parse_u16 code) [ none ↦ false | some n ↦ leb 200 n && ltb n 300 ]

-- The code gives `Ok` of this in every case.
unfoldable pub check_health : Probe → Bool
unfolding split_whitespace second is_success
check_health not_connected = false
check_health not_written = false
check_health not_read = false
check_health (status_line line) = is_success (second (split_whitespace line))

-- A round of a loop: the time since the start, what other tasks do during the check, what the check
-- meets, the time after it, and what other tasks do during the sleep of the round.
pub record Round : Type 0 where
  pub elapsed : Duration
  pub during_check : List Op
  pub probe : Probe
  pub checked_at : ℕ
  pub during_sleep : List Op

-- The loop goes on, it found the backend ready, its state no longer calls for polling, the startup
-- timeout has passed, or the backend is to be restarted.
pub data PollEnd : Type 0 where
  polling became_ready state_changed startup_expired restarts : PollEnd

after_mark : ProcessManager × Bool → ProcessManager × PollEnd → ProcessManager × PollEnd
after_mark (m, true) rest = (m, became_ready)
after_mark (m, false) rest = rest

-- Phase 1. The list of rounds is as long as the loop is looked at.
unfoldable pub starting_loop :
    Text → Duration → List Round → ProcessManager → ProcessManager × PollEnd
unfolding after_mark check_health get_state
starting_loop hostname timeout [] m = (m, polling)
starting_loop hostname timeout (r ∷ rs) m =
    let checked = run m r.during_check in
    let marked = mark_ready r.checked_at hostname checked in
    let passed = check_health r.probe in
    let next = if passed then marked.0 else checked in
    let rest = starting_loop hostname timeout rs (run next r.during_sleep) in
    if not (is_state (get_state m hostname) starting)
    then if is_state (get_state m hostname) ready then (m, became_ready) else (m, state_changed)
    else if ltb timeout r.elapsed
    then (m, startup_expired)
    else if passed
    then after_mark marked rest
    else rest

-- The states in which phase 2 goes on.
unfoldable pub is_monitored : BackendState → Bool
is_monitored ready = true
is_monitored unhealthy = true
is_monitored stopping = false
is_monitored stopped = false
is_monitored starting = false

after_record : ProcessManager × Bool → ProcessManager × PollEnd → ProcessManager × PollEnd
after_record (m, true) rest = (m, restarts)
after_record (m, false) rest = rest

-- Phase 2. A round starts with its sleep.
unfoldable pub monitor_loop : Text → ℕ → List Round → ProcessManager → ProcessManager × PollEnd
unfolding after_record check_health get_state is_monitored
monitor_loop hostname threshold [] m = (m, polling)
monitor_loop hostname threshold (r ∷ rs) m =
    let slept = run m r.during_sleep in
    let checked = run slept r.during_check in
    let recorded = record_health_failure hostname threshold checked in
    let passed = check_health r.probe in
    let next = if passed then reset_health_failures hostname checked else recorded.0 in
    let rest = monitor_loop hostname threshold rs next in
    if not (is_monitored (get_state slept hostname))
    then (slept, state_changed)
    else if passed
    then rest
    else after_record recorded rest

monitor_if : Text → ℕ → List Round → ProcessManager × PollEnd → ProcessManager × PollEnd
unfolding monitor_loop
monitor_if hostname threshold monitors (m, became_ready) =
    monitor_loop hostname threshold monitors m
monitor_if hostname threshold monitors (m, polling) = (m, polling)
monitor_if hostname threshold monitors (m, state_changed) = (m, state_changed)
monitor_if hostname threshold monitors (m, startup_expired) = (m, startup_expired)
monitor_if hostname threshold monitors (m, restarts) = (m, restarts)

-- Both phases, until the loop ends: at `startup_expired` the code calls `stop_backend`, and at
-- `restarts` it spawns the task of `auto_restart`.
unfoldable pub poll_health :
    Text
    → BackendConfig
    → BackendDefaults
    → List Round
    → List Round
    → ProcessManager
    → ProcessManager × PollEnd
unfolding starting_loop monitor_if startup_timeout unhealthy_threshold
poll_health hostname c defaults starts monitors m =
    monitor_if hostname (unhealthy_threshold c defaults) monitors
      (starting_loop hostname (startup_timeout c defaults) starts m)

-- `spawn_auto_restart`: the stop, a pause of 500 ms in which other tasks run, and the start.
unfoldable pub auto_restart :
    Launcher
    → Weather
    → List Op
    → ℕ
    → List Op
    → Text
    → ProcessManager
    → Option (ProcessManager × List Action × Result Text Started)
unfolding stop_backend start_backend
auto_restart os env pause now others hostname m = elim (stop_backend env hostname m) [
  | none ↦ none
  | some (m', acts) ↦
      let (m'', r) = start_backend os now others hostname (run m' pause) in some (m'', acts, r)
]
