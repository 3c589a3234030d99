-- ===== src/Proxy/Ready.antt =====
-- src/proxy.rs: `ensure_backend_ready` and `wait_for_ready`.
use spawngate.Base.{ℕ, Bool, none, some, List, [], ◌∷◌, Result, ok, err, if◌then◌else◌}
use spawngate.Base.Text.{Text, codes}
use spawngate.Process.State.{
  BackendState, stopped, starting, ready, unhealthy, stopping, ProcessManager, get_config,
  get_state, is_ready, subscribe_ready,
}
use spawngate.Process.Steps.{Op, run}
use spawngate.Process.Launch.{Launcher}
use spawngate.Process.Start.{Started, start_backend}

-- What `recv` gives.
pub data Received : Type 0 where
  notified closed lagged : Received

-- A round of the wait: what other tasks do until the receiver wakes up, and what it gets.
pub record Wakeup : Type 0 where
  pub meanwhile : List Op
  pub received : Received

-- How the waits of one request turn out.
pub record Waits : Type 0 where
  -- during the 500 ms that a backend in `Stopping` is given
  pub stopping_sleep : List Op
  -- while the backend is launched, and the time after that
  pub launching : List Op
  pub launched_at : ℕ
  -- between the start and the subscription
  pub before_wait : List Op
  -- the rounds before the startup timeout
  pub wakeups : List Wakeup

after_wakeup :
    Received
    → Bool
    → ProcessManager
    → ProcessManager × Result Text (Unit {0})
    → ProcessManager × Result Text (Unit {0})
after_wakeup notified now_ready m rest = (m, ok tt)
after_wakeup closed now_ready m rest = (m, err (codes "Backend failed to start"))
after_wakeup lagged now_ready m rest = if now_ready then (m, ok tt) else rest

-- The loop under the timeout. When the rounds are over, the timeout has passed.
unfoldable pub wait_loop :
    Text → List Wakeup → ProcessManager → ProcessManager × Result Text (Unit {0})
unfolding after_wakeup is_ready
wait_loop hostname [] m =
    if is_ready m hostname
    then (m, ok tt)
    else (m, err (codes "Timeout waiting for backend to start"))
wait_loop hostname (w ∷ ws) m =
    let m' = run m w.meanwhile in
    let rest = wait_loop hostname ws m' in
    if is_ready m hostname
    then (m, ok tt)
    else after_wakeup w.received (is_ready m' hostname) m' rest

unfoldable pub wait_for_ready :
    Text → List Wakeup → ProcessManager → ProcessManager × Result Text (Unit {0})
unfolding wait_loop get_config subscribe_ready
wait_for_ready hostname ws m = elim (get_config m hostname) [
  | none ↦ (m, err (codes "Backend not found"))
  | some c ↦ elim (subscribe_ready m hostname) [
    | none ↦ (m, err (codes "Backend not starting"))
    | some receiver ↦ wait_loop hostname ws m
  ]
]

unfoldable pub wait_after_start :
    Waits → Text → ProcessManager × Result Text Started → ProcessManager × Result Text (Unit {0})
wait_after_start env hostname (m, err e) = (m, err e)
wait_after_start env hostname (m, ok s) =
    wait_for_ready hostname env.wakeups (run m env.before_wait)

unfoldable pub start_and_wait :
    Launcher → Waits → Text → ProcessManager → ProcessManager × Result Text (Unit {0})
unfolding wait_after_start
start_and_wait os env hostname m =
    wait_after_start env hostname (start_backend os env.launched_at env.launching hostname m)

unfoldable pub in_state :
    Launcher
    → Waits
    → Text
    → BackendState
    → ProcessManager
    → ProcessManager × Result Text (Unit {0})
unfolding start_and_wait
in_state os env hostname ready m = (m, ok tt)
in_state os env hostname starting m = wait_for_ready hostname env.wakeups m
in_state os env hostname stopping m = start_and_wait os env hostname (run m env.stopping_sleep)
in_state os env hostname unhealthy m = (m, err (codes "Backend is unhealthy"))
in_state os env hostname stopped m = start_and_wait os env hostname m

unfoldable pub ensure_backend_ready :
    Launcher → Waits → Text → ProcessManager → ProcessManager × Result Text (Unit {0})
unfolding in_state get_state
ensure_backend_ready os env hostname m = in_state os env hostname (get_state m hostname) m
