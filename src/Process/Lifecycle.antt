-- ===== src/Process/Lifecycle.antt =====
-- The states that a backend goes through.
use spawngate.Base.{◌≡◌, ◌≢◌, false, List, [], ◌∷◌, arith, ◌⊎◌, inl, inr, Bool-cases}
use spawngate.Base.Text.{Text, text_eq, text_eq_refl, text_eq_iff}
use spawngate.Base.Dict.{get, get-remove, get-insert_self, get-remove_self, get-insert_ne}
use spawngate.Process.State.{
  BackendState, stopped, starting, ready, unhealthy, stopping, is_state, ProcessManager, get_state,
}
use spawngate.Process.Ops.{
  touch, increment_in_flight, decrement_in_flight, mark_ready, mark_unhealthy,
  record_health_failure, reset_health_failures, insert_process, mark_stopping, remove_process,
}
use spawngate.Process.Steps.{
  Op, step, run, target, touches, increments, decrements, marks_ready, marks_unhealthy,
  records_failure, resets_failures, inserts, marks_stopping, removes,
}
use spawngate.Process.Invariant.{WellFormed, step-WellFormed}
use spawngate.Base.Lists.{All}
use spawngate.Base.{subst, sym}

-- The move of a backend from state `s` to state `t` that each operation may make.
abbrev pub Allowed : Op → BackendState → BackendState → Type 0
Allowed (touches now h) s t = t ≡ s
Allowed (increments h) s t = t ≡ s
Allowed (decrements h) s t = t ≡ s
Allowed (marks_ready now h) s t =
    (((s ≡ starting) ⊎ (s ≡ unhealthy)) × (t ≡ ready))
    ⊎ ((s ≢ starting) × (s ≢ unhealthy) × (t ≡ s))
Allowed (marks_unhealthy h) s t = ((s ≡ ready) × (t ≡ unhealthy)) ⊎ ((s ≢ ready) × (t ≡ s))
Allowed (records_failure h threshold) s t = ((s ≡ ready) × (t ≡ unhealthy)) ⊎ (t ≡ s)
Allowed (resets_failures h) s t = ((s ≡ unhealthy) × (t ≡ ready)) ⊎ (t ≡ s)
Allowed (inserts now h handle) s t = t ≡ starting
Allowed (marks_stopping h) s t = ((s ≡ stopped) × (t ≡ stopped)) ⊎ ((s ≢ stopped) × (t ≡ stopping))
Allowed (removes h) s t = t ≡ stopped

module _ (m : ProcessManager) where
  -- Every operation moves the state of its backend along the lifecycle: readiness is reached only
  -- from `Starting` or `Unhealthy`, unhealthiness only from `Ready`, and `Stopped` is left only by
  -- an insertion.
  pub step-Allowed :
      (o : Op) → WellFormed m → Allowed o (get_state m (target o)) (get_state (step m o) (target o))
  unfolding step get_state touch increment_in_flight decrement_in_flight mark_ready mark_unhealthy
      record_health_failure reset_health_failures insert_process mark_stopping remove_process
      is_state
  step-Allowed (touches now h) w = grind (arith, get-insert_self)
  step-Allowed (increments h) w = grind (arith, get-insert_self)
  step-Allowed (decrements h) w = grind (arith, get-insert_self)
  step-Allowed (marks_ready now h) w = grind (arith, get-insert_self)
  step-Allowed (marks_unhealthy h) w = grind (arith, get-insert_self)
  step-Allowed (records_failure h threshold) w = grind (arith, get-insert_self)
  step-Allowed (resets_failures h) w = grind (arith, get-insert_self)
  step-Allowed (inserts now h handle) w = grind (arith, get-insert_self)
  step-Allowed (marks_stopping h) w = grind (arith, get-insert_self, w.alive)
  step-Allowed (removes h) w = grind (arith, get-remove_self)

  -- An operation on one backend leaves the others in the map as they are.
  pub step-frame :
      (o : Op) (j : Text)
      → text_eq (target o) j ≡ false
      → get j (step m o).processes ≡ get j m.processes
  unfolding step touch increment_in_flight decrement_in_flight mark_ready mark_unhealthy
      record_health_failure reset_health_failures insert_process mark_stopping remove_process
  step-frame (touches now h) j ne = grind (arith, get-insert_ne)
  step-frame (increments h) j ne = grind (arith, get-insert_ne)
  step-frame (decrements h) j ne = grind (arith, get-insert_ne)
  step-frame (marks_ready now h) j ne = grind (arith, get-insert_ne)
  step-frame (marks_unhealthy h) j ne = grind (arith, get-insert_ne)
  step-frame (records_failure h threshold) j ne = grind (arith, get-insert_ne)
  step-frame (resets_failures h) j ne = grind (arith, get-insert_ne)
  step-frame (inserts now h handle) j ne = grind (arith, get-insert_ne)
  step-frame (marks_stopping h) j ne = grind (arith, get-insert_ne)
  step-frame (removes h) j ne = ground (arith, get-remove h j m.processes)

-- `Stopping`, or gone.
abbrev pub IsClosing : BackendState → Type 0
IsClosing s = (s ≡ stopping) ⊎ (s ≡ stopped)

-- The operation does not put a new process in the place of backend `h`.
abbrev pub KeepsOut : Text → Op → Type 0
KeepsOut h (inserts now j handle) = text_eq j h ≡ false
KeepsOut h _ = Unit

get_state-frame :
    (m n : ProcessManager) (h : Text)
    → get h n.processes ≡ get h m.processes
    → get_state n h ≡ get_state m h
unfolding get_state
get_state-frame m n h e = rw (get_state, e)

IsClosing-step :
    (m : ProcessManager) (o : Op)
    → WellFormed m
    → KeepsOut (target o) o
    → IsClosing (get_state m (target o))
    → IsClosing (get_state (step m o) (target o))
IsClosing-step m (touches now h) w k c = ground (arith, step-Allowed m (touches now h) w)
IsClosing-step m (increments h) w k c = ground (arith, step-Allowed m (increments h) w)
IsClosing-step m (decrements h) w k c = ground (arith, step-Allowed m (decrements h) w)
IsClosing-step m (marks_ready now h) w k c = ground (arith, step-Allowed m (marks_ready now h) w)
IsClosing-step m (marks_unhealthy h) w k c = ground (arith, step-Allowed m (marks_unhealthy h) w)
IsClosing-step m (records_failure h t) w k c =
    ground (arith, step-Allowed m (records_failure h t) w)
IsClosing-step m (resets_failures h) w k c = ground (arith, step-Allowed m (resets_failures h) w)
IsClosing-step m (inserts now h handle) w k c = ground (arith, text_eq_refl h)
IsClosing-step m (marks_stopping h) w k c = ground (arith, step-Allowed m (marks_stopping h) w)
IsClosing-step m (removes h) w k c = ground (arith, step-Allowed m (removes h) w)

step-IsClosing :
    (m : ProcessManager) (o : Op) (h : Text)
    → WellFormed m
    → KeepsOut h o
    → IsClosing (get_state m h)
    → IsClosing (get_state (step m o) h)
step-IsClosing m o h w k c = elim (Bool-cases (text_eq (target o) h)) [
  | inl same ↦
      let e : target o ≡ h = (text_eq_iff (target o) h).0 same in
      subst (λ j. IsClosing (get_state (step m o) j)) e
        (IsClosing-step m o w (subst (λ j. KeepsOut j o) (sym e) k)
          (subst (λ j. IsClosing (get_state m j)) (sym e) c))
  | inr ne ↦ rw (get_state-frame m (step m o) h (step-frame m o h ne)) c
]

-- Once a backend is marked `Stopping`, no task can make it anything but `Stopping` or gone, unless
-- one inserts a new process for it.
pub run-IsClosing :
    (m : ProcessManager) (os : List Op) (h : Text)
    → WellFormed m
    → All (KeepsOut h) os
    → IsClosing (get_state m h)
    → IsClosing (get_state (run m os) h)
unfolding run
run-IsClosing m [] h w k c = c
run-IsClosing m (o ∷ os) h w (k, ks) c =
    run-IsClosing (step m o) os h (step-WellFormed m o w) ks (step-IsClosing m o h w k c)

mark_stopping-IsClosing :
    (m : ProcessManager) (h : Text) → WellFormed m → IsClosing (get_state (mark_stopping h m) h)
unfolding step
mark_stopping-IsClosing m h w = ground (arith, step-Allowed m (marks_stopping h) w)

increment-IsClosing :
    (n : ProcessManager) (h : Text)
    → IsClosing (get_state n h)
    → increment_in_flight h n ≡ (n, false)
unfolding increment_in_flight get_state is_state
increment-IsClosing n h c = ground arith

-- Once a backend is marked as stopping, every request for it is refused and none is counted, whatever
-- the tasks do, unless one of them inserts a new process for it.
pub closing_refuses :
    (m : ProcessManager) (os : List Op) (h : Text)
    → WellFormed m
    → All (KeepsOut h) os
    → increment_in_flight h (run (mark_stopping h m) os) ≡ (run (mark_stopping h m) os, false)
unfolding step
closing_refuses m os h w ks = increment-IsClosing _ h (
    run-IsClosing (mark_stopping h m) os h (step-WellFormed m (marks_stopping h) w) ks
      (mark_stopping-IsClosing m h w))
