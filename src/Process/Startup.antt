-- ===== src/Process/Startup.antt =====
-- The first phase of the health polling.
use spawngate.Base.{ℕ, ◌+◌, ◌≤◌, ◌≡◌, refl, ◌∙◌, true, false, some, List, [], ◌∷◌, ◌++◌, arith, ltb}
use spawngate.Base.Text.{Text, text_eq}
use spawngate.Base.Lists.{All}
use spawngate.Base.Dict.{get, get-insert_self}
use spawngate.Config.{Duration}
use spawngate.Process.State.{starting, ready, is_state, BackendProcess, ProcessManager, get_state}
use spawngate.Process.Ops.{mark_ready}
use spawngate.Process.Steps.{Op, step, run, target}
use spawngate.Process.Lifecycle.{step-frame}
use spawngate.Process.Health.{check_health, Round, became_ready, starting_loop}

-- The operations are about other backends.
abbrev pub Elsewhere : Text → List Op → Type 0
Elsewhere h = All (λ o. text_eq (target o) h ≡ false)

pub run-frame :
    (m : ProcessManager) (os : List Op) (h : Text)
    → Elsewhere h os
    → get h (run m os).processes ≡ get h m.processes
unfolding run
run-frame m [] h q = refl
run-frame m (o ∷ os) h (q, qs) = run-frame (step m o) os h qs ∙ step-frame m o h q

-- The round is before the timeout, and other tasks leave the backend alone in it.
pub record InTime (h : Text) (timeout : Duration) (r : Round) : Type 0 where
  pub early : r.elapsed ≤ timeout
  pub check_alone : Elsewhere h r.during_check
  pub sleep_alone : Elsewhere h r.during_sleep

-- A backend in the map that starts.
abbrev pub IsStarting : Text → ProcessManager → Type 0
IsStarting h m = (p : BackendProcess) × (get h m.processes ≡ some p) × (p.state ≡ starting)

pub IsStarting-run :
    (m : ProcessManager) (os : List Op) (h : Text)
    → Elsewhere h os
    → IsStarting h m
    → IsStarting h (run m os)
IsStarting-run m os h q (p, e, s) = (p, run-frame m os h q ∙ e, s)

pub get_state-IsStarting :
    (m : ProcessManager) (h : Text) → IsStarting h m → get_state m h ≡ starting
unfolding get_state
get_state-IsStarting m h (p, e, s) = ground (arith, e, s)

-- What a backend that was just marked ready looks like, and its waiting requests.
pub record MadeReady (h : Text) (before after : ProcessManager) : Type 0 where
  pub process : BackendProcess
  pub was : get h before.processes ≡ some process
  pub is_ready : get_state after h ≡ ready
  pub notified : after.sent process.ready_tx ≡ before.sent process.ready_tx + 1

pub mark_ready-MadeReady :
    (now : ℕ) (m : ProcessManager) (h : Text)
    → IsStarting h m
    → ((mark_ready now h m).1 ≡ true) × MadeReady h m (mark_ready now h m).0
unfolding mark_ready get_state is_state
mark_ready-MadeReady now m h (p, e, s) = (
  ground (arith, e, s),
  record {
    process = p;
    was = e;
    is_ready = grind (arith, e, s, get-insert_self);
    notified = ground (arith, e, s);
  },
)

module _ (h : Text) (timeout : Duration) (r : Round) (rs : List Round) (m : ProcessManager)
    (up : IsStarting h m) (t : InTime h timeout r) where
  pub starting-failed :
      check_health r.probe ≡ false
      → starting_loop h timeout (r ∷ rs) m
        ≡ starting_loop h timeout rs (run (run m r.during_check) r.during_sleep)
  unfolding starting_loop is_state
  starting-failed failed = ground (arith, failed, get_state-IsStarting m h up, t.early)

  in_time : ltb timeout r.elapsed ≡ false
  in_time = ground (arith, t.early)

  pub starting-passed :
      check_health r.probe ≡ true
      → (mark_ready r.checked_at h (run m r.during_check)).1 ≡ true
      → starting_loop h timeout (r ∷ rs) m
        ≡ ((mark_ready r.checked_at h (run m r.during_check)).0, became_ready)
  unfolding starting_loop is_state
  starting-passed passed marked =
      rw (starting_loop, get_state-IsStarting m h up, in_time, passed, marked) refl

-- A backend that is starting becomes `Ready` at the first health check that passes, if that is before
-- its startup timeout and no other task acts on the backend meanwhile; the requests that wait for it
-- are notified then, once.
pub starting_loop-MadeReady :
    (h : Text) (timeout : Duration) (failed : List Round) (r : Round) (rs : List Round)
    (m : ProcessManager)
    → IsStarting h m
    → All (λ f. InTime h timeout f × (check_health f.probe ≡ false)) failed
    → InTime h timeout r
    → check_health r.probe ≡ true
    → ((starting_loop h timeout (failed ++ (r ∷ rs)) m).1 ≡ became_ready)
      × ((before : ProcessManager) × MadeReady h before
            (starting_loop h timeout (failed ++ (r ∷ rs)) m).0)
starting_loop-MadeReady h timeout [] r rs m up q t passed =
    let (marked, made) =
      mark_ready-MadeReady r.checked_at (run m r.during_check) h
        (IsStarting-run m r.during_check h t.check_alone up) in
    rw (starting-passed h timeout r rs m up t passed marked) (refl, (run m r.during_check, made))
starting_loop-MadeReady h timeout (f ∷ fs) r rs m up ((tf, failing), q) t passed =
    rw (starting-failed h timeout f (fs ++ (r ∷ rs)) m up tf failing) (
      starting_loop-MadeReady h timeout fs r rs _
        (IsStarting-run _ f.during_sleep h tf.sleep_alone
          (IsStarting-run m f.during_check h tf.check_alone up))
        q t passed)
