-- ===== src/Process/Abstract.antt =====
-- The manager seen from outside: for each hostname the state of its backend, the requests in flight
-- and the failed health checks in a row. How the map, the heap of counters and their addresses keep
-- this is forgotten.
use spawngate.Base.{
  ℕ, ◌+◌, ◌-◌, ◌%◌, ◌≡◌, refl, ap, ◌∙◌, subst, false, none, some, List, [], ◌∷◌, arith,
  if◌then◌else◌, inl, inr, Option-cases, Bool-cases, ◌||◌, ◌&&◌, ltb, leb,
}
use spawngate.Base.Text.{Text, text_eq, text_eq_iff}
use spawngate.Base.Dict.{get, get-insert_self, get-remove_self}
use spawngate.Process.State.{
  BackendState, stopped, starting, ready, unhealthy, stopping, is_state, ProcessManager, u32_mod,
  usize_mod,
}
use spawngate.Process.Ops.{
  touch, increment_in_flight, decrement_in_flight, mark_ready, mark_unhealthy,
  record_health_failure, reset_health_failures, insert_process, mark_stopping, remove_process,
}
use spawngate.Process.Steps.{
  Op, step, run, target, touches, increments, decrements, marks_ready, marks_unhealthy,
  records_failure, resets_failures, inserts, marks_stopping, removes,
}
use spawngate.Process.Invariant.{WellFormed, step-WellFormed}
use spawngate.Process.Lifecycle.{step-frame}
use spawngate.Process.Counters.{counter_of, counters-frame}

pub record Status : Type 0 where
  pub state : BackendState
  pub in_flight : ℕ
  pub failures : ℕ

abbrev pub absent : Status
absent = record { state = stopped; in_flight = 0; failures = 0 }

pub status_of : ProcessManager → Text → Status
status_of m h = elim (get h m.processes) [
  | none ↦ absent
  | some p ↦ record {
    state = p.state;
    in_flight = m.counters p.in_flight;
    failures = p.consecutive_failures;
  }
]

-- The small machine that each backend is.
pub move : Op → Status → Status
unfolding is_state
move (touches now h) s = s
move (increments h) s =
    if is_state s.state ready then record s { in_flight = (s.in_flight + 1) % usize_mod } else s
move (decrements h) s =
    if is_state s.state stopped
    then s
    else record s { in_flight = (s.in_flight + usize_mod - 1) % usize_mod }
move (marks_ready now h) s =
    if is_state s.state starting || is_state s.state unhealthy
    then record s { state = ready; failures = 0 }
    else s
move (marks_unhealthy h) s = if is_state s.state ready then record s { state = unhealthy } else s
move (records_failure h threshold) s = if is_state s.state stopped then s else record s {
  failures = (s.failures + 1) % u32_mod;
  state =
      if leb threshold ((s.failures + 1) % u32_mod) && is_state s.state ready
      then unhealthy
      else s.state;
}
move (resets_failures h) s =
    if ltb 0 s.failures
    then record s { failures = 0; state = if is_state s.state unhealthy then ready else s.state }
    else s
move (inserts now h handle) s = record { state = starting; in_flight = 0; failures = 0 }
move (marks_stopping h) s = if is_state s.state stopped then s else record s { state = stopping }
move (removes h) s = absent

-- What the operations of a run that are about `h` make of its backend.
pub moves : Text → List Op → Status → Status
moves h [] s = s
moves h (o ∷ os) s = moves h os (if text_eq (target o) h then move o s else s)

module _ (m : ProcessManager) (w : WellFormed m) where
  status-step : (o : Op) → status_of (step m o) (target o) ≡ move o (status_of m (target o))
  unfolding status_of move step touch increment_in_flight decrement_in_flight mark_ready
      mark_unhealthy record_health_failure reset_health_failures insert_process mark_stopping
      remove_process is_state
  status-step (touches now h) = grind (arith, get-insert_self)
  status-step (increments h) = grind (arith, get-insert_self)
  status-step (decrements h) = grind (arith, get-insert_self, w.alive)
  status-step (marks_ready now h) = grind (arith, get-insert_self)
  status-step (marks_unhealthy h) = grind (arith, get-insert_self)
  status-step (records_failure h threshold) = grind (arith, get-insert_self, w.alive)
  status-step (resets_failures h) = grind (arith, get-insert_self)
  status-step (inserts now h handle) = grind (arith, get-insert_self)
  status-step (marks_stopping h) = grind (arith, get-insert_self, w.alive)
  status-step (removes h) = grind (arith, get-remove_self)

  status-frame :
      (o : Op) (h : Text) → text_eq (target o) h ≡ false → status_of (step m o) h ≡ status_of m h
  unfolding status_of counter_of
  status-frame o h ne = elim (Option-cases (get h m.processes)) [
    | inl e ↦ ground (arith, e, step-frame m o h ne)
    | inr (p, e) ↦
        ground
          (arith, e, step-frame m o h ne, counters-frame m p.in_flight o h w ne (ground (arith, e)))
  ]

  status_any :
      (o : Op) (h : Text)
      → status_of (step m o) h
        ≡ (if text_eq (target o) h then move o (status_of m h) else status_of m h)
  status_any o h = elim (Bool-cases (text_eq (target o) h)) [
    | inl same ↦
        let e : target o ≡ h = (text_eq_iff (target o) h).0 same in
        rw same (subst (λ j. status_of (step m o) j ≡ move o (status_of m j)) e (status-step o))
    | inr ne ↦ rw ne (status-frame o h ne)
  ]

-- The manager implements a map from hostnames to independent small machines: over any interleaving of
-- the tasks, the state, the requests in flight and the failed checks of a backend are what the
-- operations on its own hostname make of them in turn, and nothing done to other backends, to the map
-- or to their counters shows.
pub run_refines :
    (m : ProcessManager) (os : List Op) (h : Text)
    → WellFormed m
    → status_of (run m os) h ≡ moves h os (status_of m h)
unfolding run moves
run_refines m [] h w = refl
run_refines m (o ∷ os) h w =
    run_refines (step m o) os h (step-WellFormed m o w) ∙ ap (moves h os) (status_any m w o h)
