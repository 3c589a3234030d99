-- ===== src/Proxy/Waiting.antt =====
-- Requests that wait for a backend that another task marks ready.
use spawngate.Base.{
  ℕ, ◌≡◌, refl, ◌∙◌, ◌⊎◌, inl, inr, some, List, [], ◌∷◌, ◌++◌, Result, ok, arith, subst, sym,
  Bool-cases, true,
}
use spawngate.Base.Text.{Text}
use spawngate.Base.Dict.{get, get-insert_self}
use spawngate.Process.State.{ready, is_state, BackendProcess, ProcessManager, get_state, is_ready}
use spawngate.Process.Ops.{mark_ready}
use spawngate.Process.Steps.{Op, step, run, run-append, marks_ready}
use spawngate.Process.Settings.{SameSettings, SameSettings-trans, run-SameSettings}
use spawngate.Process.Startup.{
  Elsewhere, run-frame, IsStarting, IsStarting-run, get_state-IsStarting,
}
use spawngate.Proxy.Ready.{notified, lagged, Wakeup, wait_loop}

-- A backend in the map that is ready.
abbrev pub IsServing : Text → ProcessManager → Type 0
IsServing h m = (p : BackendProcess) × (get h m.processes ≡ some p) × (p.state ≡ ready)

pub IsServing-run :
    (m : ProcessManager) (os : List Op) (h : Text)
    → Elsewhere h os
    → IsServing h m
    → IsServing h (run m os)
IsServing-run m os h q (p, e, s) = (p, run-frame m os h q ∙ e, s)

pub get_state-IsServing : (m : ProcessManager) (h : Text) → IsServing h m → get_state m h ≡ ready
unfolding get_state
get_state-IsServing m h (p, e, s) = ground (arith, e, s)

-- Among these operations one task marks the backend ready, and no other acts on it.
pub record Announced (h : Text) (os : List Op) : Type 0 where
  pub before : List Op
  pub after : List Op
  pub now : ℕ
  pub parts : os ≡ before ++ (marks_ready now h ∷ after)
  pub before_alone : Elsewhere h before
  pub after_alone : Elsewhere h after

mark_ready-IsServing :
    (now : ℕ) (m : ProcessManager) (h : Text) → IsStarting h m → IsServing h (mark_ready now h m).0
unfolding mark_ready is_state
mark_ready-IsServing now m h (p, e, s) = (
  record p { state = ready; last_activity = now; consecutive_failures = 0 },
  grind (arith, e, s, get-insert_self),
  refl,
)

pub Announced-run :
    (m : ProcessManager) (os : List Op) (h : Text)
    → IsStarting h m
    → Announced h os
    → IsServing h (run m os)
unfolding step run
Announced-run m os h up a =
    subst (λ ps. IsServing h (run m ps)) (sym a.parts)
      (subst (λ n. IsServing h n) (sym (run-append m a.before (marks_ready a.now h ∷ a.after)))
        (IsServing-run _ a.after h a.after_alone (
          mark_ready-IsServing a.now (run m a.before) h
            (IsStarting-run m a.before h a.before_alone up))))

-- The rounds of a wait up to the one in which a task marks the backend ready: until then no task acts
-- on it, and its channel stays open.
pub data Woken (h : Text) : List Wakeup → Type 0 where
  now :
      {w : Wakeup} {ws : List Wakeup}
      → Announced h w.meanwhile
      → (w.received ≡ notified) ⊎ (w.received ≡ lagged)
      → Woken h (w ∷ ws)
  later :
      {w : Wakeup} {ws : List Wakeup}
      → Elsewhere h w.meanwhile
      → w.received ≡ lagged
      → Woken h ws
      → Woken h (w ∷ ws)

wait_loop_ready :
    (h : Text) (ws : List Wakeup) (m : ProcessManager)
    → is_ready m h ≡ true
    → wait_loop h ws m ≡ (m, ok tt)
unfolding wait_loop
wait_loop_ready h [] m s = rw s refl
wait_loop_ready h (w ∷ ws) m s = rw (wait_loop, s) refl

is_ready-IsServing : (m : ProcessManager) (h : Text) → IsServing h m → is_ready m h ≡ true
unfolding is_ready is_state
is_ready-IsServing m h s = rw (get_state-IsServing m h s) refl

pub wait_loop_serving :
    (h : Text) (ws : List Wakeup) (m : ProcessManager)
    → IsServing h m
    → wait_loop h ws m ≡ (m, ok tt)
wait_loop_serving h ws m s = wait_loop_ready h ws m (is_ready-IsServing m h s)

-- The wait from `m` on ends well, with the backend ready and the configuration as it was.
pub record Waited (h : Text) (m : ProcessManager) (r : ProcessManager × Result Text (Unit {0}))
    : Type 0 where
  pub ended : r.1 ≡ ok tt
  pub serving : IsServing h r.0
  pub settings : SameSettings m r.0

pub Waited-trans :
    {h : Text} {m n : ProcessManager} {r : ProcessManager × Result Text (Unit {0})}
    → SameSettings m n
    → Waited h n r
    → Waited h m r
Waited-trans s w = record {
  ended = w.ended;
  serving = w.serving;
  settings = SameSettings-trans s w.settings;
}

wait_loop_notified :
    (h : Text) (w : Wakeup) (ws : List Wakeup) (m : ProcessManager)
    → IsStarting h m
    → w.received ≡ notified
    → wait_loop h (w ∷ ws) m ≡ (run m w.meanwhile, ok tt)
unfolding wait_loop is_ready is_state
wait_loop_notified h w ws m up e = rw (wait_loop, get_state-IsStarting m h up, e) refl

wait_loop_lagged :
    (h : Text) (w : Wakeup) (ws : List Wakeup) (m : ProcessManager)
    → IsStarting h m
    → w.received ≡ lagged
    → wait_loop h (w ∷ ws) m ≡ wait_loop h ws (run m w.meanwhile)
unfolding wait_loop is_ready is_state
wait_loop_lagged h w ws m up e = elim (Bool-cases (is_ready (run m w.meanwhile) h)) [
  | inl r ↦ rw (get_state-IsStarting m h up, e, r, wait_loop_ready h ws (run m w.meanwhile) r) refl
  | inr r ↦ rw (get_state-IsStarting m h up, e, r) refl
]

-- No wakeup is lost: a request that waits for a starting backend goes on once a task marks it ready,
-- also where that is in a round whose notification the receiver missed.
pub wait_loop-Waited :
    (h : Text) (ws : List Wakeup) (m : ProcessManager)
    → IsStarting h m
    → Woken h ws
    → Waited h m (wait_loop h ws m)
wait_loop-Waited h [] m up woken = elim woken [ ]
wait_loop-Waited h (w ∷ ws) m up (now a (inl e)) = rw (wait_loop_notified h w ws m up e) (record {
  ended = refl;
  serving = Announced-run m w.meanwhile h up a;
  settings = run-SameSettings m w.meanwhile;
})
wait_loop-Waited h (w ∷ ws) m up (now a (inr e)) =
    let s = Announced-run m w.meanwhile h up a in
    rw (wait_loop_lagged h w ws m up e, wait_loop_serving h ws (run m w.meanwhile) s)
      (record { ended = refl; serving = s; settings = run-SameSettings m w.meanwhile })
wait_loop-Waited h (w ∷ ws) m up (later q e rest) =
    let later_on =
      wait_loop-Waited h ws (run m w.meanwhile) (IsStarting-run m w.meanwhile h q up) rest in
    rw (wait_loop_lagged h w ws m up e) (Waited-trans (run-SameSettings m w.meanwhile) later_on)
