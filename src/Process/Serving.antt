-- ===== src/Process/Serving.antt =====
-- What other tasks may do while a backend serves.
use spawngate.Base.{
  ℕ, ◌≡◌, sym, subst, ◌∙◌, some, List, [], ◌∷◌, arith, inl, inr, Bool-cases, false,
}
use spawngate.Base.Text.{Text, text_eq, text_eq_iff}
use spawngate.Base.Lists.{All}
use spawngate.Base.Dict.{get, get-insert_self}
use spawngate.Process.State.{ready, BackendProcess, ProcessManager}
use spawngate.Process.Ops.{touch, increment_in_flight, decrement_in_flight}
use spawngate.Process.Steps.{
  Op, touches, increments, decrements, marks_ready, marks_unhealthy, records_failure,
  resets_failures, inserts, marks_stopping, removes, run, step, target,
}
use spawngate.Process.Lifecycle.{step-frame}
use spawngate.Process.Health.{Round}

-- The operation is about another backend, or of a request: it changes neither the state of this backend nor
-- its count of failures.
abbrev pub Spares : Text → Op → Type 0
Spares h (touches now j) = Unit
Spares h (increments j) = Unit
Spares h (decrements j) = Unit
Spares h o = text_eq (target o) h ≡ false

-- Other tasks spare the backend during the round.
pub record IsSpared (h : Text) (r : Round) : Type 0 where
  pub asleep : All (Spares h) r.during_sleep
  pub checking : All (Spares h) r.during_check

-- The backend serves, after `k` failures in a row.
pub record Serves (h : Text) (k : ℕ) (m : ProcessManager) : Type 0 where
  pub process : BackendProcess
  pub running : get h m.processes ≡ some process
  pub is_ready : process.state ≡ ready
  pub failures : process.consecutive_failures ≡ k

Serves-frame :
    (h : Text) (k : ℕ) (m n : ProcessManager)
    → get h n.processes ≡ get h m.processes
    → Serves h k m
    → Serves h k n
Serves-frame h k m n same s = record {
  process = s.process;
  running = same ∙ s.running;
  is_ready = s.is_ready;
  failures = s.failures;
}

touch-Serves :
    (now : ℕ) (h : Text) (k : ℕ) (m : ProcessManager) → Serves h k m → Serves h k (touch now h m)
unfolding touch
touch-Serves now h k m s = record {
  process = record s.process { last_activity = now };
  running = rw (touch, s.running) (get-insert_self h _ m.processes);
  is_ready = s.is_ready;
  failures = s.failures;
}

step-Serves :
    (h : Text) (k : ℕ) (m : ProcessManager) (o : Op)
    → Spares h o
    → Serves h k m
    → Serves h k (step m o)
unfolding step increment_in_flight decrement_in_flight
step-Serves h k m (touches now j) q s = elim (Bool-cases (text_eq j h)) [
  | inl t ↦
      subst (λ i. Serves h k (touch now i m)) (sym ((text_eq_iff j h).0 t))
        (touch-Serves now h k m s)
  | inr f ↦ Serves-frame h k m _ (step-frame m (touches now j) h f) s
]
step-Serves h k m (increments j) q s = Serves-frame h k m _ (ground arith) s
step-Serves h k m (decrements j) q s = Serves-frame h k m _ (ground arith) s
step-Serves h k m (marks_ready now j) q s =
    Serves-frame h k m _ (step-frame m (marks_ready now j) h q) s
step-Serves h k m (marks_unhealthy j) q s =
    Serves-frame h k m _ (step-frame m (marks_unhealthy j) h q) s
step-Serves h k m (records_failure j t) q s =
    Serves-frame h k m _ (step-frame m (records_failure j t) h q) s
step-Serves h k m (resets_failures j) q s =
    Serves-frame h k m _ (step-frame m (resets_failures j) h q) s
step-Serves h k m (inserts now j handle) q s =
    Serves-frame h k m _ (step-frame m (inserts now j handle) h q) s
step-Serves h k m (marks_stopping j) q s =
    Serves-frame h k m _ (step-frame m (marks_stopping j) h q) s
step-Serves h k m (removes j) q s = Serves-frame h k m _ (step-frame m (removes j) h q) s

pub run-Serves :
    (h : Text) (k : ℕ) (m : ProcessManager) (os : List Op)
    → All (Spares h) os
    → Serves h k m
    → Serves h k (run m os)
unfolding run
run-Serves h k m [] q s = s
run-Serves h k m (o ∷ os) (q, qs) s = run-Serves h k (step m o) os qs (step-Serves h k m o q s)
