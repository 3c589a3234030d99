-- ===== src/Process/Monitoring.antt =====
-- When the health loop restarts a backend.
use spawngate.Base.{
  ℕ, ◌+◌, ◌%◌, ◌≤◌, ◌<◌, ◌≡◌, refl, ap, Bool, true, false, List, [], ◌∷◌, ltb, leb, if◌then◌else◌,
  arith, inl, inr, Bool-cases,
}
use spawngate.Base.Text.{Text}
use spawngate.Base.Lists.{All}
use spawngate.Base.Dict.{get-insert_self}
use spawngate.Process.State.{
  BackendState, ready, unhealthy, is_state, BackendProcess, ProcessManager, get_state, u32_mod,
}
use spawngate.Process.Ops.{put, record_health_failure, reset_health_failures}
use spawngate.Process.Steps.{run}
use spawngate.Process.Serving.{Serves, IsSpared, run-Serves}
use spawngate.Process.Health.{
  check_health, Round, PollEnd, polling, restarts, is_monitored, monitor_loop,
}

-- The longest run of consecutive failures, of which the first comes after `k` failures.
pub longest_failure : ℕ → List Round → ℕ
longest_failure k [] = 0
longest_failure k (r ∷ rs) =
    let passed = check_health r.probe in
    let rest = longest_failure (if passed then 0 else k + 1) rs in
    if passed then rest else if ltb (k + 1) rest then rest else k + 1

module _ (h : Text) (k threshold : ℕ) (m : ProcessManager) (s : Serves h k m) where
  reset-Serves : Serves h 0 (reset_health_failures h m)
  unfolding reset_health_failures is_state
  reset-Serves = elim (Bool-cases (ltb 0 s.process.consecutive_failures)) [
    | inl t ↦ record {
      process = record s.process {
        consecutive_failures = 0;
        state = if is_state s.process.state unhealthy then ready else s.process.state;
      };
      running = rw (s.running, reset_health_failures, t) (get-insert_self h _ m.processes);
      is_ready = ground (arith, s.is_ready);
      failures = refl;
    }
    | inr t ↦ record {
      process = s.process;
      running = ground (arith, s.running, t);
      is_ready = s.is_ready;
      failures = ground (arith, t);
    }
  ]

  -- The process with one more failure.
  abbrev counted : BackendState → BackendProcess
  counted state = record s.process {
    state = state;
    consecutive_failures = (s.process.consecutive_failures + 1) % u32_mod;
  }

  failure-reached :
      threshold ≤ k + 1
      → k + 1 < u32_mod
      → record_health_failure h threshold m ≡ (put m h (counted unhealthy), true)
  unfolding record_health_failure is_state
  failure-reached reached small = ground (arith, s.running, s.is_ready, s.failures)

  failure-below :
      k + 1 < threshold
      → k + 1 < u32_mod
      → record_health_failure h threshold m ≡ (put m h (counted s.process.state), false)
  unfolding record_health_failure is_state
  failure-below below small = ground (arith, s.running, s.is_ready, s.failures)

  failure-unhealthy :
      threshold ≤ k + 1
      → k + 1 < u32_mod
      → get_state (record_health_failure h threshold m).0 h ≡ unhealthy
  unfolding get_state
  failure-unhealthy reached small =
      rw (
        failure-reached reached small,
        get_state,
        get-insert_self h (counted unhealthy) m.processes,
      )

  failure-Serves :
      k + 1 < threshold → k + 1 < u32_mod → Serves h (k + 1) (record_health_failure h threshold m).0
  failure-Serves below small = rw (failure-below below small) (record {
    process = counted s.process.state;
    running = get-insert_self h _ m.processes;
    is_ready = s.is_ready;
    failures = ground (arith, s.failures);
  })

  Serves-get_state : get_state m h ≡ ready
  unfolding get_state
  Serves-get_state = ground (arith, s.running, s.is_ready)

-- The manager when the check of the round is over.
abbrev checked : Round → ProcessManager → ProcessManager
checked r m = run (run m r.during_sleep) r.during_check

module _ (h : Text) (threshold : ℕ) (r : Round) (rs : List Round) (m : ProcessManager)
    (up : get_state (run m r.during_sleep) h ≡ ready) where
  monitor-passed :
      check_health r.probe ≡ true
      → monitor_loop h threshold (r ∷ rs) m
        ≡ monitor_loop h threshold rs (reset_health_failures h (checked r m))
  unfolding monitor_loop is_monitored
  monitor-passed passed = rw (monitor_loop, up, passed) refl

  monitor-below :
      check_health r.probe ≡ false
      → (record_health_failure h threshold (checked r m)).1 ≡ false
      → monitor_loop h threshold (r ∷ rs) m
        ≡ monitor_loop h threshold rs (record_health_failure h threshold (checked r m)).0
  unfolding monitor_loop is_monitored
  monitor-below failed below = ground (arith, up, failed, below)

  monitor-reached :
      check_health r.probe ≡ false
      → (record_health_failure h threshold (checked r m)).1 ≡ true
      → monitor_loop h threshold (r ∷ rs) m
        ≡ ((record_health_failure h threshold (checked r m)).0, restarts)
  unfolding monitor_loop is_monitored
  monitor-reached failed reached = ground (arith, up, failed, reached)

-- How the loop ends, and the state that it leaves.
pub record Outcome (h : Text) (reached : Bool) (r : ProcessManager × PollEnd) : Type 0 where
  pub end : r.1 ≡ (if reached then restarts else polling)
  pub state : get_state r.0 h ≡ (if reached then unhealthy else ready)

longest-passed :
    (k : ℕ) (r : Round) (rs : List Round)
    → check_health r.probe ≡ true
    → longest_failure k (r ∷ rs) ≡ longest_failure 0 rs
unfolding longest_failure
longest-passed k r rs passed = ground (arith, passed)

longest-below :
    (threshold k : ℕ) (r : Round) (rs : List Round)
    → check_health r.probe ≡ false
    → k + 1 < threshold
    → leb threshold (longest_failure k (r ∷ rs)) ≡ leb threshold (longest_failure (k + 1) rs)
unfolding longest_failure
longest-below threshold k r rs failed below = ground (arith, failed)

longest-reached :
    (threshold k : ℕ) (r : Round) (rs : List Round)
    → check_health r.probe ≡ false
    → threshold ≤ k + 1
    → leb threshold (longest_failure k (r ∷ rs)) ≡ true
unfolding longest_failure
longest-reached threshold k r rs failed reached = ground (arith, failed)

monitor-end :
    (h : Text) (threshold k : ℕ) (m : ProcessManager)
    → k < threshold
    → get_state m h ≡ ready
    → Outcome h (leb threshold (longest_failure k [])) (monitor_loop h threshold [] m)
unfolding monitor_loop longest_failure
monitor-end h threshold k m below up = record { end = ground arith; state = ground (arith, up) }

-- Health monitoring of a backend that is `Ready` after `k` failures in a row, fewer than the threshold,
-- which is below 2^32: it restarts the backend exactly when so many checks fail in a row, these `k`
-- included, as the threshold says, and leaves it `Unhealthy` then and `Ready` otherwise: one check that
-- passes sets the count back. In the rounds other tasks may do anything with other backends, and touch
-- this one, count requests for it and report them as done.
pub monitor_loop-Outcome :
    (h : Text) (threshold k : ℕ) (rounds : List Round) (m : ProcessManager)
    → Serves h k m
    → k < threshold
    → threshold < u32_mod
    → All (IsSpared h) rounds
    → Outcome h (leb threshold (longest_failure k rounds)) (monitor_loop h threshold rounds m)
monitor_loop-Outcome h threshold k [] m s below small q =
    monitor-end h threshold k m below (Serves-get_state h k threshold m s)
monitor_loop-Outcome h threshold k (r ∷ rs) m s below small (q, qs) =
    let slept : Serves h k (run m r.during_sleep) = run-Serves h k m r.during_sleep q.asleep s in
    let c : Serves h k (checked r m) = run-Serves h k _ r.during_check q.checking slept in
    let up = Serves-get_state h k threshold (run m r.during_sleep) slept in
    elim (Bool-cases (check_health r.probe)) [
      | inl passed ↦
          rw (monitor-passed h threshold r rs m up passed, longest-passed k r rs passed)
            (monitor_loop-Outcome h threshold 0 rs _ (reset-Serves h k threshold (checked r m) c)
              (omega arith) small qs)
      | inr failed ↦ elim (Bool-cases (leb threshold (k + 1))) [
        | inl t ↦
            let reached : threshold ≤ k + 1 = ground (arith, t) in
            let eq = failure-reached h k threshold (checked r m) c reached (omega arith) in
            rw
              (
                monitor-reached h threshold r rs m up failed (ap (λ x. x.1) eq),
                longest-reached threshold k r rs failed reached,
              )
              (record {
                end = refl;
                state = failure-unhealthy h k threshold (checked r m) c reached (omega arith);
              })
        | inr t ↦
            let under : k + 1 < threshold = ground (arith, t) in
            let eq = failure-below h k threshold (checked r m) c under (omega arith) in
            rw
              (
                monitor-below h threshold r rs m up failed (ap (λ x. x.1) eq),
                longest-below threshold k r rs failed under,
              )
              (monitor_loop-Outcome h threshold (k + 1) rs _
                (failure-Serves h k threshold (checked r m) c under (omega arith)) under small qs)
      ]
    ]
