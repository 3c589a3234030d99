-- ===== src/Process/Steps.antt =====
-- src/process.rs: the manager is shared by many tasks. Each method of Process/Ops holds the lock of
-- its backend, so what the tasks do together is a sequence of such steps, in any order.
use spawngate.Base.{ℕ, ◌≡◌, refl, List, [], ◌∷◌, ◌++◌}
use spawngate.Base.Text.{Text}
use spawngate.Process.State.{ProcessHandle, ProcessManager}
use spawngate.Process.Ops.{
  touch, increment_in_flight, decrement_in_flight, mark_ready, mark_unhealthy,
  record_health_failure, reset_health_failures, insert_process, mark_stopping, remove_process,
}

-- The numbers are the time, or the threshold of `record_health_failure`.
pub data Op : Type 0 where
  touches : ℕ → Text → Op
  increments : Text → Op
  decrements : Text → Op
  marks_ready : ℕ → Text → Op
  marks_unhealthy : Text → Op
  records_failure : Text → ℕ → Op
  resets_failures : Text → Op
  inserts : ℕ → Text → ProcessHandle → Op
  marks_stopping : Text → Op
  removes : Text → Op

unfoldable pub step : ProcessManager → Op → ProcessManager
step m (touches now h) = touch now h m
step m (increments h) = (increment_in_flight h m).0
step m (decrements h) = decrement_in_flight h m
step m (marks_ready now h) = (mark_ready now h m).0
step m (marks_unhealthy h) = mark_unhealthy h m
step m (records_failure h threshold) = (record_health_failure h threshold m).0
step m (resets_failures h) = reset_health_failures h m
step m (inserts now h handle) = insert_process now h handle m
step m (marks_stopping h) = mark_stopping h m
step m (removes h) = remove_process h m

unfoldable pub run : ProcessManager → List Op → ProcessManager
run m [] = m
run m (o ∷ os) = run (step m o) os

-- The backend that a step is about.
abbrev pub target : Op → Text
target (touches now h) = h
target (increments h) = h
target (decrements h) = h
target (marks_ready now h) = h
target (marks_unhealthy h) = h
target (records_failure h threshold) = h
target (resets_failures h) = h
target (inserts now h handle) = h
target (marks_stopping h) = h
target (removes h) = h

pub run-append : (m : ProcessManager) (os ps : List Op) → run m (os ++ ps) ≡ run (run m os) ps
unfolding run
run-append m [] ps = refl
run-append m (o ∷ os) ps = run-append (step m o) os ps

-- An invariant of every step is one of every run.
pub run_induction {ℓ} :
    (P : ProcessManager → Type ℓ)
    → ((m : ProcessManager) (o : Op) → P m → P (step m o))
    → (m : ProcessManager) (os : List Op) → P m
    → P (run m os)
unfolding run
run_induction P keep m [] h = h
run_induction P keep m (o ∷ os) h = run_induction P keep (step m o) os (keep m o h)
