-- ===== src/Process/InFlight.antt =====
-- The count of the requests in flight, over any interleaving of the tasks.
use spawngate.Base.{
  ℕ, ◌+◌, ◌%◌, ◌<◌, ◌≤◌, ◌≡◌, refl, some, List, [], ◌∷◌, arith, inl, inr, Bool-cases, subst,
}
use spawngate.Base.Text.{Text, text_eq, text_eq_iff}
use spawngate.Base.Lists.{All}
use spawngate.Base.Dict.{get, get-insert_self}
use spawngate.Process.State.{
  ProcessHandle, BackendProcess, ProcessManager, get_in_flight, usize_mod,
}
use spawngate.Process.Ops.{
  touch, increment_in_flight, decrement_in_flight, mark_ready, mark_unhealthy,
  record_health_failure, reset_health_failures, insert_process, mark_stopping, remove_process,
}
use spawngate.Process.Steps.{
  Op, step, run, run_induction, target, touches, increments, decrements, marks_ready,
  marks_unhealthy, records_failure, resets_failures, inserts, marks_stopping, removes,
}
use spawngate.Process.Invariant.{WellFormed, step-WellFormed}
use spawngate.Process.Lifecycle.{step-frame}
use spawngate.Process.Counters.{
  KeepsProcess, accepts, finishes, accepted, finished, counter_of, get_in_flight-counter,
  address-step, counters-step, counters-frame, finishes_ne, accepts_ne,
}

-- One step, whichever backend it is about.
record Counts (h : Text) (a : ℕ) (m : ProcessManager) (o : Op) : Type 0 where
  address : counter_of h (step m o) ≡ some a
  balance :
      ((step m o).counters a + finishes h o) % usize_mod
      ≡ (m.counters a + accepts h m o) % usize_mod

step-Counts :
    (h : Text) (a : ℕ) (m : ProcessManager) (o : Op)
    → WellFormed m
    → KeepsProcess h o
    → counter_of h m ≡ some a
    → Counts h a m o
unfolding counter_of
step-Counts h a m o w k e = elim (Bool-cases (text_eq (target o) h)) [
  | inl same ↦
      subst (λ j. KeepsProcess j o → counter_of j m ≡ some a → Counts j a m o)
        ((text_eq_iff (target o) h).0 same)
        (λ k' e'. record {
          address = address-step m a o k' e';
          balance = counters-step m a o k' e';
        })
        k e
  | inr ne ↦ record {
    address = ground (arith, step-frame m o h ne);
    balance = rw (finishes_ne h o ne, accepts_ne h m o ne, counters-frame m a o h w ne e);
  }
]

pub run-balance :
    (h : Text) (a : ℕ) (m : ProcessManager) (os : List Op)
    → WellFormed m
    → All (KeepsProcess h) os
    → counter_of h m ≡ some a
    → (counter_of h (run m os) ≡ some a)
      × (((run m os).counters a + finished h os) % usize_mod
          ≡ (m.counters a + accepted h m os) % usize_mod)
unfolding run accepted finished
run-balance h a m [] w k e = (e, refl)
run-balance h a m (o ∷ os) w (k, ks) e =
    let c = step-Counts h a m o w k e in
    let (e', b) = run-balance h a (step m o) os (step-WellFormed m o w) ks c.address in
    (e', omega (arith, c.balance, b))

-- Every counter fits its width.
abbrev pub IsBounded : ProcessManager → Type 0
IsBounded m = (a : ℕ) → m.counters a < usize_mod

step-IsBounded : (m : ProcessManager) (o : Op) → IsBounded m → IsBounded (step m o)
unfolding step touch increment_in_flight decrement_in_flight mark_ready mark_unhealthy
    record_health_failure reset_health_failures insert_process mark_stopping remove_process
step-IsBounded m (touches now h) b a = ground (arith, b a)
step-IsBounded m (increments h) b a = ground (arith, b a)
step-IsBounded m (decrements h) b a = ground (arith, b a)
step-IsBounded m (marks_ready now h) b a = ground (arith, b a)
step-IsBounded m (marks_unhealthy h) b a = ground (arith, b a)
step-IsBounded m (records_failure h t) b a = ground (arith, b a)
step-IsBounded m (resets_failures h) b a = ground (arith, b a)
step-IsBounded m (inserts now h handle) b a = ground (arith, b a)
step-IsBounded m (marks_stopping h) b a = ground (arith, b a)
step-IsBounded m (removes h) b a = ground (arith, b a)

pub run-IsBounded : (m : ProcessManager) (os : List Op) → IsBounded m → IsBounded (run m os)
run-IsBounded = run_induction IsBounded step-IsBounded

pub counter_of-some :
    (h : Text) (m : ProcessManager) (p : BackendProcess)
    → get h m.processes ≡ some p
    → counter_of h m ≡ some p.in_flight
unfolding counter_of
counter_of-some h m p e = ground arith

module _ (h : Text) (m : ProcessManager) (p : BackendProcess) (os : List Op) (w : WellFormed m)
    (keeps : All (KeepsProcess h) os) (e : get h m.processes ≡ some p) where
  pub in_flight_balance :
      (get_in_flight (run m os) h + finished h os) % usize_mod
      ≡ (get_in_flight m h + accepted h m os) % usize_mod
  in_flight_balance =
      let (e', b) = run-balance h p.in_flight m os w keeps (counter_of-some h m p e) in
      rw
        (
          get_in_flight-counter (run m os) h p.in_flight e',
          get_in_flight-counter m h p.in_flight (counter_of-some h m p e),
        )
        b

  -- While a backend keeps its process, whatever the tasks do to it and to other backends, its
  -- in-flight count is the number of the requests accepted for it less the number of those reported
  -- as done: if it starts at 0, no more are reported than were accepted, and those fit 64 bits.
  pub in_flight_exact :
      IsBounded m
      → get_in_flight m h ≡ 0
      → finished h os ≤ accepted h m os
      → accepted h m os < usize_mod
      → get_in_flight (run m os) h + finished h os ≡ accepted h m os
  in_flight_exact b z le lt = omega (arith, in_flight_balance, small)
    where
      small : get_in_flight (run m os) h < usize_mod
      small =
          rw
            (get_in_flight-counter (run m os) h p.in_flight
              (run-balance h p.in_flight m os w keeps (counter_of-some h m p e)).0)
            (run-IsBounded m os b p.in_flight)

-- A request that outlives its process: reported as done after a new process was put in the place of
-- the one that it was counted for, it leaves the new process with a count of 2^64 - 1.
pub decrement-insert_process :
    (m : ProcessManager) (now : ℕ) (h : Text) (handle : ProcessHandle)
    → get_in_flight (decrement_in_flight h (insert_process now h handle m)) h + 1 ≡ usize_mod
unfolding decrement_in_flight insert_process get_in_flight
decrement-insert_process m now h handle = grind (arith, get-insert_self)
