-- ===== src/Process/Idle.antt =====
-- Which backends are stopped for being idle, and that stopping all leaves none.
use spawngate.Base.{
  ℕ, ◌-◌, ◌≡◌, refl, true, false, Option, none, some, List, [], ◌∷◌, arith, ◌⊎◌, inl, inr,
  Bool-cases, Option-cases, subst, sym, ◌<◌, ◌+◌, zero, suc, ◌↔◌,
}
use spawngate.Base.Text.{Text, text_eq, text_eq_iff, includes}
use spawngate.Base.Lists.{All}
use spawngate.Base.Dict.{Dict, get, keys, Unique, get-remove_self, get-remove}
use spawngate.Config.{BackendConfig, idle_timeout}
use spawngate.Process.State.{BackendProcess, ProcessManager, ready, is_state, get_config}
use spawngate.Process.Ops.{
  touch, increment_in_flight, decrement_in_flight, mark_ready, mark_unhealthy,
  record_health_failure, reset_health_failures, insert_process, mark_stopping, remove_process,
}
use spawngate.Process.Steps.{Op, step, run, target, touches, inserts, marks_stopping, removes}
use spawngate.Process.Invariant.{WellFormed}
use spawngate.Process.Lifecycle.{step-frame}
use spawngate.Process.Stop.{
  Action, Weather, drain, drain_if_any, remove_and_end, stop_backend, Drained, in_flight_counter,
  stop_timeouts, drain_fuel,
}
use spawngate.Process.Cleanup.{is_idle, idle_entries, idle_backends, stop_each, stop_all}

includes-idle_entries :
    (now : ℕ) (m : ProcessManager) (h : Text) (entries : Dict BackendProcess)
    → Unique entries
    → includes (idle_entries now m entries) h
      ≡ elim (get h entries) [ none ↦ false | some p ↦ is_idle now m h p ]
unfolding includes idle_entries get
includes-idle_entries now m h [] u = refl
includes-idle_entries now m h ((j, p) ∷ entries) (e, u) =
    ground (arith, includes-idle_entries now m h entries u, text_eq_iff j h, e)

-- `Ready`, configured, and without activity for longer than its idle timeout.
pub record IsIdle (now : ℕ) (m : ProcessManager) (h : Text) : Type 0 where
  pub process : BackendProcess
  pub config : BackendConfig
  pub running : get h m.processes ≡ some process
  pub is_ready : process.state ≡ ready
  pub configured : get_config m h ≡ some config
  pub overdue : idle_timeout config m.defaults < now - process.last_activity

IsIdle-of_is_idle :
    (now : ℕ) (m : ProcessManager) (h : Text) (p : BackendProcess)
    → get h m.processes ≡ some p
    → is_idle now m h p ≡ true
    → IsIdle now m h
unfolding is_idle is_state
IsIdle-of_is_idle now m h p e i = elim (Option-cases (get_config m h)) [
  | inl n ↦ absurd (ground (arith, n))
  | inr (c, g) ↦ record {
    process = p;
    config = c;
    running = e;
    is_ready = ground (arith, g);
    configured = g;
    overdue = ground (arith, g);
  }
]

is_idle-IsIdle :
    (now : ℕ) (m : ProcessManager) (h : Text) (i : IsIdle now m h)
    → is_idle now m h i.process ≡ true
unfolding is_idle is_state
is_idle-IsIdle now m h i = ground (arith, i.is_ready, i.configured, i.overdue)

-- The cleanup stops exactly the backends that are `Ready`, are configured, and have had no activity
-- for longer than their idle timeout; the requests in flight are not asked for.
pub idle_backends-IsIdle :
    (now : ℕ) (m : ProcessManager) (h : Text)
    → WellFormed m
    → (includes (idle_backends now m) h ≡ true) ↔ IsIdle now m h
unfolding idle_backends
idle_backends-IsIdle now m h w =
    let exact = includes-idle_entries now m h m.processes w.unique in
    (
      λ t. elim (Option-cases (get h m.processes)) [
        | inl n ↦ absurd (ground (arith, n, exact))
        | inr (p, e) ↦ IsIdle-of_is_idle now m h p e (ground (arith, e, exact))
      ],
      λ i. ground (arith, i.running, exact, is_idle-IsIdle now m h i),
    )

-- The operation puts no new process in the map.
abbrev pub InsertsNothing : Op → Type 0
InsertsNothing (inserts now h handle) = ⊥
InsertsNothing _ = Unit

abbrev Absent : Text → ProcessManager → Type 0
Absent h m = get h m.processes ≡ none

Absent-step :
    (m : ProcessManager) (o : Op)
    → InsertsNothing o
    → Absent (target o) m
    → Absent (target o) (step m o)
unfolding step touch increment_in_flight decrement_in_flight mark_ready mark_unhealthy
    record_health_failure reset_health_failures insert_process mark_stopping remove_process
Absent-step m (inserts now h handle) q a = absurd q
Absent-step m (removes h) q a = get-remove_self h m.processes
Absent-step m (touches now h) q a = ground arith
Absent-step m _ q a = ground arith

step-Absent :
    (m : ProcessManager) (o : Op) (h : Text) → InsertsNothing o → Absent h m → Absent h (step m o)
step-Absent m o h q a = elim (Bool-cases (text_eq (target o) h)) [
  | inl same ↦
      let e : target o ≡ h = (text_eq_iff (target o) h).0 same in
      subst (λ j. Absent j (step m o)) e (Absent-step m o q (subst (λ j. Absent j m) (sym e) a))
  | inr ne ↦ ground (arith, step-frame m o h ne)
]

pub run-Absent :
    (m : ProcessManager) (os : List Op) (h : Text)
    → All InsertsNothing os
    → Absent h m
    → Absent h (run m os)
unfolding run
run-Absent m [] h q a = a
run-Absent m (o ∷ os) h (q, qs) a = run-Absent (step m o) os h qs (step-Absent m o h q a)

-- What other tasks do while a backend is stopped starts nothing.
pub record IsCalm (env : Weather) : Type 0 where
  pub marking : All InsertsNothing env.before_mark
  pub sleeping : (n : ℕ) → All InsertsNothing (env.during_sleep n)

drain-Absent :
    (env : Weather) (c timeout fuel n : ℕ) (m m' : ProcessManager) (d : Drained) (h : Text)
    → IsCalm env
    → Absent h m
    → drain env c timeout fuel n m ≡ some (m', d)
    → Absent h m'
unfolding drain
drain-Absent env c timeout zero n m m' d h q a e = cc
drain-Absent env c timeout (suc fuel) n m m' d h q a e = ground (
  arith,
  drain-Absent env c timeout fuel (n + 1) (run m (env.during_sleep n)) m' d h q
      (run-Absent m (env.during_sleep n) h (q.sleeping n) a),
)

remove_and_end-Absent :
    (env : Weather) (grace : ℕ) (k h : Text) (m : ProcessManager)
    → (text_eq k h ≡ true) ⊎ Absent h m
    → Absent h (remove_and_end env grace k m).0
unfolding remove_and_end remove_process
remove_and_end-Absent env grace k h m c =
    ground (arith, get-remove k h m.processes, text_eq_iff k h)

drain_if_any-Absent :
    (env : Weather) (c : Option ℕ) (timeout : ℕ) (m m' : ProcessManager) (h : Text)
    → IsCalm env
    → Absent h m
    → drain_if_any env c timeout m ≡ some m'
    → Absent h m'
unfolding drain_if_any
drain_if_any-Absent env none timeout m m' h q a e = ground arith
drain_if_any-Absent env (some c) timeout m m' h q a e =
    elim (Option-cases (drain env c timeout (drain_fuel timeout) 0 m)) [
      | inl x ↦ absurd (ground (arith, x))
      | inr ((n, d), x) ↦
          ground (arith, x, drain-Absent env c timeout (drain_fuel timeout) 0 m n d h q a x)
    ]

marked-Absent :
    (env : Weather) (k h : Text) (m : ProcessManager)
    → IsCalm env
    → Absent h m
    → Absent h (mark_stopping k (run m env.before_mark))
unfolding step
marked-Absent env k h m q a =
    step-Absent (run m env.before_mark) (marks_stopping k) h tt
      (run-Absent m env.before_mark h q.marking a)

-- A calm stop takes its own backend out, and puts no other in.
stop_backend-Absent :
    (env : Weather) (k h : Text) (m m' : ProcessManager) (acts : List Action)
    → IsCalm env
    → (text_eq k h ≡ true) ⊎ Absent h m
    → stop_backend env k m ≡ some (m', acts)
    → Absent h m'
unfolding stop_backend
stop_backend-Absent env k h m m' acts q c e =
    elim (Option-cases (
      drain_if_any env (in_flight_counter m k) (stop_timeouts m k).0
        (mark_stopping k (run m env.before_mark)))) [
          | inl d ↦ absurd (ground (arith, d))
          | inr (n, d) ↦
              let kept : (text_eq k h ≡ true) ⊎ Absent h n = elim c [
                | inl t ↦ inl t
                | inr a ↦ inr (drain_if_any-Absent env _ _ _ n h q (marked-Absent env k h m q a) d)
              ] in
              ground (arith, d, remove_and_end-Absent env (stop_timeouts m k).1 k h n kept)
        ]

pub stop_each-Absent :
    (env : Text → Weather) (hosts : List Text) (h : Text) (m m' : ProcessManager)
    (acts : List Action)
    → ((k : Text) → IsCalm (env k))
    → (includes hosts h ≡ true) ⊎ Absent h m
    → stop_each env hosts m ≡ some (m', acts)
    → Absent h m'
unfolding stop_each includes
stop_each-Absent env [] h m m' acts q c e = ground arith
stop_each-Absent env (k ∷ hosts) h m m' acts q c e =
    elim (Option-cases (stop_backend (env k) k m)) [
      | inl x ↦ absurd (ground (arith, x))
      | inr ((n, done), x) ↦ elim (Option-cases (stop_each env hosts n)) [
        | inl y ↦ absurd (ground (arith, x, y))
        | inr ((last, more), y) ↦
            let kept : (includes hosts h ≡ true) ⊎ Absent h n = elim (Bool-cases (text_eq k h)) [
              | inl t ↦ inr (stop_backend-Absent (env k) k h m n done (q k) (inl t) x)
              | inr t ↦ elim c [
                | inl i ↦ inl (ground arith)
                | inr a ↦ inr (stop_backend-Absent (env k) k h m n done (q k) (inr a) x)
              ]
            ] in
            ground (arith, x, y, stop_each-Absent env hosts h n last more q kept y)
      ]
    ]

includes-keys :
    (h : Text) (m : Dict BackendProcess) → (includes (keys m) h ≡ true) ⊎ (get h m ≡ none)
unfolding includes get
includes-keys h [] = inr refl
includes-keys h ((k, p) ∷ m) = ground (arith, includes-keys h m)

-- At the shutdown, when no other task starts a backend any more, stopping all leaves no process in
-- the map.
pub stop_all-Absent :
    (env : Text → Weather) (m m' : ProcessManager) (acts : List Action)
    → ((k : Text) → IsCalm (env k))
    → stop_all env m ≡ some (m', acts)
    → (h : Text) → get h m'.processes ≡ none
unfolding stop_all
stop_all-Absent env m m' acts q e h =
    stop_each-Absent env (keys m.processes) h m m' acts q (includes-keys h m.processes) e
