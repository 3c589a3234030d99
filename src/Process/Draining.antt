-- ===== src/Process/Draining.antt =====
-- `stop_backend` comes to an end, waits for the requests in flight, and leaves the backend stopped.
use spawngate.Base.{
  ℕ, zero, suc, ◌+◌, ◌*◌, ◌/◌, ◌≤◌, ◌<◌, ◌≡◌, ◌≢◌, none, some, List, arith, Option-cases, inl, inr,
}
use spawngate.Base.Text.{Text}
use spawngate.Base.Lists.{All}
use spawngate.Base.Dict.{get, get-remove_self}
use spawngate.Config.{Duration}
use spawngate.Process.State.{stopped, BackendProcess, ProcessManager, get_state, get_in_flight}
use spawngate.Process.Ops.{mark_stopping, remove_process}
use spawngate.Process.Steps.{Op, run}
use spawngate.Process.Invariant.{WellFormed}
use spawngate.Process.Counters.{KeepsProcess}
use spawngate.Process.Stop.{
  Action, Weather, drain, drain_fuel, stop_timeouts, in_flight_counter, drain_if_any,
  remove_and_end, stop_backend, drain_poll_interval_ms,
}

-- `tokio::time::sleep` lasts at least as long as it is asked to.
pub record Sleeps (env : Weather) : Type 0 where
  pub at_least : (n : ℕ) → drain_poll_interval_ms * n ≤ env.drained_for n

drain-ends :
    (env : Weather) (c : ℕ) (timeout : Duration) (fuel n : ℕ) (m : ProcessManager)
    → Sleeps env
    → n ≤ timeout / 50 + 1
    → timeout / 50 + 2 ≤ fuel + n
    → drain env c timeout fuel n m ≢ none
unfolding drain
drain-ends env c timeout zero n m s le enough = absurd (omega arith)
drain-ends env c timeout (suc fuel) n m s le enough =
    ground
      (arith, s.at_least n, drain-ends env c timeout fuel (n + 1) (run m (env.during_sleep n)) s)

-- Stopping a backend comes to an end: as each sleep lasts at least the 50 ms that it is asked to,
-- the loop stops by itself within the rounds that `drain_fuel` allows.
pub stop_backend-ne-none :
    (env : Weather) (h : Text) (m : ProcessManager) → Sleeps env → stop_backend env h m ≢ none
unfolding stop_backend drain_fuel
stop_backend-ne-none env h m s = elim (Option-cases (in_flight_counter m h)) [
  | inl e ↦ ground (arith, e)
  | inr (c, e) ↦ ground (
    arith,
    e,
    drain-ends env c (stop_timeouts m h).0 ((stop_timeouts m h).0 / 50 + 2) 0
        (mark_stopping h (run m env.before_mark)) s,
  )
]

remove_and_end-stopped :
    (env : Weather) (grace : Duration) (h : Text) (m : ProcessManager)
    → get_state (remove_and_end env grace h m).0 h ≡ stopped
unfolding remove_and_end get_state remove_process
remove_and_end-stopped env grace h m = ground (arith, get-remove_self h m.processes)

-- Stopping a backend leaves it `Stopped`, whatever other tasks did meanwhile.
pub stop_backend-stopped :
    (env : Weather) (h : Text) (m m' : ProcessManager) (acts : List Action)
    → stop_backend env h m ≡ some (m', acts)
    → get_state m' h ≡ stopped
unfolding stop_backend
stop_backend-stopped env h m m' acts e =
    elim (Option-cases (
      drain_if_any env (in_flight_counter m h) (stop_timeouts m h).0
        (mark_stopping h (run m env.before_mark)))) [
          | inl d ↦ absurd (ground (arith, d))
          | inr (n, d) ↦ ground (arith, d, remove_and_end-stopped env (stop_timeouts m h).1 h n)
        ]

-- The polls from number `n` on: at each, nothing is in flight for the backend, which ends them, or its
-- drain timeout has passed at this poll, which ends them too, or other tasks run during a sleep and the next
-- poll follows.
pub data Polls (h : Text) (env : Weather) (timeout : Duration)
    : ℕ → ProcessManager → ProcessManager → Type 0 where
  drained : {n : ℕ} {m : ProcessManager} → get_in_flight m h ≡ 0 → Polls h env timeout n m m
  gave_up :
      {n : ℕ} {m : ProcessManager}
      → get_in_flight m h ≢ 0
      → timeout < env.drained_for n
      → Polls h env timeout n m m
  slept :
      {n : ℕ} {m last : ProcessManager}
      → get_in_flight m h ≢ 0
      → env.drained_for n ≤ timeout
      → Polls h env timeout (n + 1) (run m (env.during_sleep n)) last
      → Polls h env timeout n m last

module _ (h : Text) (m : ProcessManager) (p : BackendProcess) (before : List Op) (w : WellFormed m)
    (e : get h m.processes ≡ some p) (quiet : All (KeepsProcess h) before) where
  abbrev marked : ProcessManager
  marked = mark_stopping h (run m before)
