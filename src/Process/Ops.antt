-- ===== src/Process/Ops.antt =====
-- src/process.rs: the methods that change one backend under its lock. Each is atomic. A method that
-- the code gives a result returns it beside the new state.
use spawngate.Base.{
  ℕ, ◌+◌, ◌-◌, ◌%◌, Bool, true, false, ◌&&◌, ◌||◌, none, some, ltb, leb, if◌then◌else◌,
}
use spawngate.Base.Text.{Text}
use spawngate.Base.Dict.{get, insert, remove}
use spawngate.Process.State.{
  starting, ready, unhealthy, stopping, is_state, ProcessHandle, BackendProcess, ProcessManager,
  usize_mod, u32_mod, write,
}

-- Writes a process back through its reference in the map.
abbrev pub put : ProcessManager → Text → BackendProcess → ProcessManager
put m hostname p = record m { processes = insert hostname p m.processes }

unfoldable pub touch : ℕ → Text → ProcessManager → ProcessManager
touch now hostname m = elim (get hostname m.processes) [
  | none ↦ m
  | some p ↦ put m hostname (record p { last_activity = now })
]

-- `fetch_add(1)` and `fetch_sub(1)` wrap.
unfoldable pub increment_in_flight : Text → ProcessManager → ProcessManager × Bool
increment_in_flight hostname m = elim (get hostname m.processes) [
  | none ↦ (m, false)
  | some p ↦
      if is_state p.state ready
      then (
        record m {
          counters = write m.counters p.in_flight ((m.counters p.in_flight + 1) % usize_mod);
        },
        true,
      )
      else (m, false)
]

unfoldable pub decrement_in_flight : Text → ProcessManager → ProcessManager
decrement_in_flight hostname m = elim (get hostname m.processes) [
  | none ↦ m
  | some p ↦ record m {
    counters = write m.counters p.in_flight ((m.counters p.in_flight + usize_mod - 1) % usize_mod);
  }
]

unfoldable pub mark_ready : ℕ → Text → ProcessManager → ProcessManager × Bool
mark_ready now hostname m = elim (get hostname m.processes) [
  | none ↦ (m, false)
  | some p ↦
      if is_state p.state starting || is_state p.state unhealthy
      then (
        record (put m hostname
            (record p { state = ready; last_activity = now; consecutive_failures = 0 })) {
              sent = write m.sent p.ready_tx (m.sent p.ready_tx + 1);
            },
        true,
      )
      else (m, false)
]

unfoldable pub mark_unhealthy : Text → ProcessManager → ProcessManager
mark_unhealthy hostname m = elim (get hostname m.processes) [
  | none ↦ m
  | some p ↦ if is_state p.state ready then put m hostname (record p { state = unhealthy }) else m
]

unfoldable pub record_health_failure : Text → ℕ → ProcessManager → ProcessManager × Bool
record_health_failure hostname threshold m = elim (get hostname m.processes) [
  | none ↦ (m, false)
  | some p ↦
      let failures = (p.consecutive_failures + 1) % u32_mod in
      if leb threshold failures && is_state p.state ready
      then (put m hostname (record p { state = unhealthy; consecutive_failures = failures }), true)
      else (put m hostname (record p { consecutive_failures = failures }), false)
]

unfoldable pub reset_health_failures : Text → ProcessManager → ProcessManager
reset_health_failures hostname m = elim (get hostname m.processes) [
  | none ↦ m
  | some p ↦
      if ltb 0 p.consecutive_failures
      then put m hostname (record p {
        consecutive_failures = 0;
        state = if is_state p.state unhealthy then ready else p.state;
      })
      else m
]

-- The insertion in `start_backend`, with the counter and the channel that it makes.
unfoldable pub insert_process : ℕ → Text → ProcessHandle → ProcessManager → ProcessManager
insert_process now hostname handle m =
    record (put m hostname (record {
      handle = handle;
      state = starting;
      last_activity = now;
      ready_tx = m.next_id;
      in_flight = m.next_id;
      consecutive_failures = 0;
    })) {
      counters = write m.counters m.next_id 0;
      sent = write m.sent m.next_id 0;
      next_id = m.next_id + 1;
    }

-- `stop_backend` marks the backend.
unfoldable pub mark_stopping : Text → ProcessManager → ProcessManager
mark_stopping hostname m = elim (get hostname m.processes) [
  | none ↦ m
  | some p ↦ put m hostname (record p { state = stopping })
]

-- `stop_backend` takes the process out of the map.
unfoldable pub remove_process : Text → ProcessManager → ProcessManager
remove_process hostname m = record m { processes = remove hostname m.processes }
