-- ===== src/Process/Invariant.antt =====
-- What every step of the tasks keeps: a backend that is in the map is not `Stopped`, its counter is
-- allocated, and no two backends share a counter.
use spawngate.Base.{
  ℕ, ◌+◌, ◌<◌, ◌≡◌, ◌≢◌, refl, Bool, true, false, some, List, arith, if◌then◌else◌, inl, inr,
  Option-cases, Bool-cases, ◌%◌, ◌||◌, ◌&&◌, ltb, leb,
}
use spawngate.Base.Text.{Text, text_eq_iff}
use spawngate.Base.Dict.{Dict, get, get-insert, get-remove, Unique, Unique-insert, Unique-remove}
use spawngate.Config.{BackendConfig, BackendDefaults}
use spawngate.Process.State.{
  BackendState, stopped, starting, ready, unhealthy, is_state, ProcessHandle, BackendProcess,
  ProcessManager, new, u32_mod,
}
use spawngate.Process.Ops.{
  put, touch, increment_in_flight, decrement_in_flight, mark_ready, mark_unhealthy,
  record_health_failure, reset_health_failures, insert_process, mark_stopping, remove_process,
}
use spawngate.Process.Steps.{
  Op, step, run, run_induction, touches, increments, decrements, marks_ready, marks_unhealthy,
  records_failure, resets_failures, inserts, marks_stopping, removes,
}

pub record WellFormed (m : ProcessManager) : Type 0 where
  pub alive : (h : Text) (p : BackendProcess) → get h m.processes ≡ some p → p.state ≢ stopped
  pub fresh : (h : Text) (p : BackendProcess) → get h m.processes ≡ some p → p.in_flight < m.next_id
  pub unshared :
      (h j : Text) (p q : BackendProcess)
      → get h m.processes ≡ some p
      → get j m.processes ≡ some q
      → p.in_flight ≡ q.in_flight
      → h ≡ j
  pub unique : Unique m.processes

pub new-WellFormed :
    (configs : Dict BackendConfig) (defaults : BackendDefaults) (url : Text)
    → WellFormed (new configs defaults url)
unfolding new get
new-WellFormed configs defaults url = record {
  alive = λ h p e. cc;
  fresh = λ h p e. cc;
  unshared = λ h j p q e f s. cc;
  unique = tt;
}

-- A process may be replaced by another state of itself.
put-WellFormed :
    (m : ProcessManager) (h : Text) (p p' : BackendProcess)
    → WellFormed m
    → get h m.processes ≡ some p
    → p'.in_flight ≡ p.in_flight
    → p'.state ≢ stopped
    → WellFormed (put m h p')
put-WellFormed m h p p' w e same live = record {
  alive =
      λ j q f. ground (arith, get-insert h j p' m.processes, w.alive j q, live, text_eq_iff h j);
  fresh = λ j q f.
      ground (arith, get-insert h j p' m.processes, w.fresh j q, w.fresh h p, text_eq_iff h j);
  unshared = λ j k q r f g s. ground (
    arith,
    get-insert h j p' m.processes,
    get-insert h k p' m.processes,
    w.unshared j k q r,
    w.unshared h k p r,
    w.unshared j h q p,
    text_eq_iff h j,
    text_eq_iff h k,
  );
  unique = Unique-insert h p' m.processes w.unique;
}

-- Neither the counts nor the notifications matter.
count-WellFormed :
    (m : ProcessManager) (counters sent : ℕ → ℕ)
    → WellFormed m
    → WellFormed (record m { counters = counters; sent = sent })
count-WellFormed m counters sent w = record {
  alive = w.alive;
  fresh = w.fresh;
  unshared = w.unshared;
  unique = w.unique;
}

live_if : (b : Bool) (s : BackendState) → s ≢ stopped → (if b then ready else s) ≢ stopped
live_if true s h e = cc
live_if false s h e = h e

insert-WellFormed :
    (m : ProcessManager) (now : ℕ) (h : Text) (handle : ProcessHandle)
    → WellFormed m
    → WellFormed (insert_process now h handle m)
unfolding insert_process
insert-WellFormed m now h handle w = record {
  alive = λ j q f. ground (arith, get-insert h j (entry m now handle) m.processes, w.alive j q);
  fresh = λ j q f. ground (arith, get-insert h j (entry m now handle) m.processes, w.fresh j q);
  unshared = λ j k q r f g s. ground (
    arith,
    get-insert h j (entry m now handle) m.processes,
    get-insert h k (entry m now handle) m.processes,
    w.unshared j k q r,
    w.fresh j q,
    w.fresh k r,
    text_eq_iff h j,
    text_eq_iff h k,
  );
  unique = Unique-insert h (entry m now handle) m.processes w.unique;
}
  where
    entry : ProcessManager → ℕ → ProcessHandle → BackendProcess
    entry m now handle = record {
      handle = handle;
      state = starting;
      last_activity = now;
      ready_tx = m.next_id;
      in_flight = m.next_id;
      consecutive_failures = 0;
    }

remove-WellFormed : (m : ProcessManager) (h : Text) → WellFormed m → WellFormed (remove_process h m)
unfolding remove_process
remove-WellFormed m h w = record {
  alive = λ j q f. ground (arith, get-remove h j m.processes, w.alive j q);
  fresh = λ j q f. ground (arith, get-remove h j m.processes, w.fresh j q);
  unshared = λ j k q r f g s.
      ground (arith, get-remove h j m.processes, get-remove h k m.processes, w.unshared j k q r);
  unique = Unique-remove h m.processes w.unique;
}

module _ (m : ProcessManager) (w : WellFormed m) (h : Text) where
  touch-WellFormed : (now : ℕ) → WellFormed (touch now h m)
  unfolding touch
  touch-WellFormed now = elim (Option-cases (get h m.processes)) [
    | inl e ↦ rw (e, touch) w
    | inr (p, e) ↦ rw (e, touch) (put-WellFormed m h p _ w e refl (w.alive h p e))
  ]

  increment-WellFormed : WellFormed (increment_in_flight h m).0
  unfolding increment_in_flight
  increment-WellFormed = elim (Option-cases (get h m.processes)) [
    | inl e ↦ rw (e, increment_in_flight) w
    | inr (p, e) ↦
        rw (e, increment_in_flight)
          (elim (Bool-cases (is_state p.state ready)) [
            | inl t ↦ rw t (count-WellFormed m _ m.sent w)
            | inr t ↦ rw t w
          ])
  ]

  decrement-WellFormed : WellFormed (decrement_in_flight h m)
  unfolding decrement_in_flight
  decrement-WellFormed = elim (Option-cases (get h m.processes)) [
    | inl e ↦ rw (e, decrement_in_flight) w
    | inr (p, e) ↦ rw (e, decrement_in_flight) (count-WellFormed m _ m.sent w)
  ]

  mark_ready-WellFormed : (now : ℕ) → WellFormed (mark_ready now h m).0
  unfolding mark_ready
  mark_ready-WellFormed now = elim (Option-cases (get h m.processes)) [
    | inl e ↦ rw (e, mark_ready) w
    | inr (p, e) ↦
        rw (e, mark_ready)
          (elim (Bool-cases (is_state p.state starting || is_state p.state unhealthy)) [
            | inl t ↦ rw t (
                count-WellFormed (put m h _) m.counters _
                  (put-WellFormed m h p _ w e refl (λ x. cc)))
            | inr t ↦ rw t w
          ])
  ]

  mark_unhealthy-WellFormed : WellFormed (mark_unhealthy h m)
  unfolding mark_unhealthy
  mark_unhealthy-WellFormed = elim (Option-cases (get h m.processes)) [
    | inl e ↦ rw (e, mark_unhealthy) w
    | inr (p, e) ↦
        rw (e, mark_unhealthy)
          (elim (Bool-cases (is_state p.state ready)) [
            | inl t ↦ rw t (put-WellFormed m h p _ w e refl (λ x. cc))
            | inr t ↦ rw t w
          ])
  ]

  record_health_failure-WellFormed :
      (threshold : ℕ) → WellFormed (record_health_failure h threshold m).0
  unfolding record_health_failure
  record_health_failure-WellFormed threshold = elim (Option-cases (get h m.processes)) [
    | inl e ↦ rw (e, record_health_failure) w
    | inr (p, e) ↦
        rw (e, record_health_failure)
          (elim (Bool-cases
            (leb threshold ((p.consecutive_failures + 1) % u32_mod) && is_state p.state ready)) [
              | inl t ↦ rw t (put-WellFormed m h p _ w e refl (λ x. cc))
              | inr t ↦ rw t (put-WellFormed m h p _ w e refl (w.alive h p e))
            ])
  ]

  reset_health_failures-WellFormed : WellFormed (reset_health_failures h m)
  unfolding reset_health_failures
  reset_health_failures-WellFormed = elim (Option-cases (get h m.processes)) [
    | inl e ↦ rw (e, reset_health_failures) w
    | inr (p, e) ↦
        rw (e, reset_health_failures)
          (elim (Bool-cases (ltb 0 p.consecutive_failures)) [
            | inl t ↦ rw t (
                put-WellFormed m h p _ w e refl
                  (live_if (is_state p.state unhealthy) p.state (w.alive h p e)))
            | inr t ↦ rw t w
          ])
  ]

  mark_stopping-WellFormed : WellFormed (mark_stopping h m)
  unfolding mark_stopping
  mark_stopping-WellFormed = elim (Option-cases (get h m.processes)) [
    | inl e ↦ rw (e, mark_stopping) w
    | inr (p, e) ↦ rw (e, mark_stopping) (put-WellFormed m h p _ w e refl (λ x. cc))
  ]

pub step-WellFormed : (m : ProcessManager) (o : Op) → WellFormed m → WellFormed (step m o)
unfolding step
step-WellFormed m (touches now h) w = touch-WellFormed m w h now
step-WellFormed m (increments h) w = increment-WellFormed m w h
step-WellFormed m (decrements h) w = decrement-WellFormed m w h
step-WellFormed m (marks_ready now h) w = mark_ready-WellFormed m w h now
step-WellFormed m (marks_unhealthy h) w = mark_unhealthy-WellFormed m w h
step-WellFormed m (records_failure h t) w = record_health_failure-WellFormed m w h t
step-WellFormed m (resets_failures h) w = reset_health_failures-WellFormed m w h
step-WellFormed m (inserts now h handle) w = insert-WellFormed m now h handle w
step-WellFormed m (marks_stopping h) w = mark_stopping-WellFormed m w h
step-WellFormed m (removes h) w = remove-WellFormed m h w

-- However the tasks interleave, a manager that is well-formed stays so: every backend in its map is
-- in a state other than `Stopped`, holds an allocated counter, and shares it with no other backend.
pub run-WellFormed : (m : ProcessManager) (os : List Op) → WellFormed m → WellFormed (run m os)
run-WellFormed = run_induction WellFormed step-WellFormed
