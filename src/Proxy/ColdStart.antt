-- ===== src/Proxy/ColdStart.antt =====
-- A request for a backend that does not run: `handle_request` starts the backend, waits for it and
-- forwards the request.
use spawngate.Base.{
  ℕ, ◌≡◌, refl, ◌∙◌, ◌⊎◌, inl, inr, false, none, some, List, Result, ok, err, arith,
}
use spawngate.Base.Text.{Text}
use spawngate.Base.Dict.{contains_key, get-insert_self}
use spawngate.Config.{Duration, BackendConfig, request_timeout}
use spawngate.Process.State.{
  stopped, is_state, ProcessHandle, ProcessManager, get_state, get_config, has_backend,
  subscribe_ready,
}
use spawngate.Process.Ops.{touch, increment_in_flight, insert_process}
use spawngate.Process.Steps.{Op, run}
use spawngate.Process.Launch.{launch}
use spawngate.Process.Start.{Started, polled, finish_start, is_running, start_backend}
use spawngate.Process.Starting.{start_backend-finish_start}
use spawngate.Process.Settings.{
  SameSettings, SameSettings-trans, run-SameSettings, insert_process-SameSettings,
  get_config-SameSettings,
}
use spawngate.Process.Startup.{Elsewhere, IsStarting, IsStarting-run}
use spawngate.Proxy.Http.{Request}
use spawngate.Proxy.Hostname.{extract_hostname}
use spawngate.Proxy.Ready.{
  wait_loop, wait_for_ready, wait_after_start, in_state, start_and_wait, ensure_backend_ready,
}
use spawngate.Proxy.Waiting.{
  Announced, Announced-run, Woken, Waited, Waited-trans, IsServing, IsServing-run,
  wait_loop_serving, wait_loop-Waited,
}
use spawngate.Proxy.Upgrade.{is_upgrade_request}
use spawngate.Proxy.Request.{
  Context, Handled, answer, forward, dispatch, route, identify, handle_request, challenge_response,
  redirect_port,
}
use spawngate.Proxy.Forwarding.{with_proxy_headers}

-- The start of the backend that the request meets, and what other tasks do while it waits.
pub record IsColdStart (c : Context) (h : Text) (config : BackendConfig) (m : ProcessManager)
    : Type 0 where
  pub configured : get_config m h ≡ some config
  pub cold : get_state m h ≡ stopped
  pub handle : ProcessHandle
  pub launched : (launch c.os config.backend_type h config m).1 ≡ ok handle
  -- a task marks the backend ready before the receiver listens, or while it waits
  pub marked :
      Announced h c.waits.before_wait ⊎ (Elsewhere h c.waits.before_wait × Woken h c.waits.wakeups)
  pub left_alone : Elsewhere h c.before_count

-- What is left of a start that launched a handle.
pub record Launched (h : Text) (m : ProcessManager) (r : ProcessManager × Result Text Started)
    : Type 0 where
  pub started : Started
  pub ended : r.1 ≡ ok started
  pub up : IsStarting h r.0
  pub settings : SameSettings m r.0

insert_process-IsStarting :
    (now : ℕ) (h : Text) (handle : ProcessHandle) (m : ProcessManager)
    → IsStarting h (insert_process now h handle m)
unfolding insert_process
insert_process-IsStarting now h handle m = (_, get-insert_self h _ m.processes, refl)

finish_start-Launched :
    (now : ℕ) (others : List Op) (h : Text) (config : BackendConfig) (handle : ProcessHandle)
    (m : ProcessManager) (r : ProcessManager × Result Text ProcessHandle)
    → r.1 ≡ ok handle
    → SameSettings m r.0
    → Launched h m (finish_start now others h config r)
unfolding finish_start
finish_start-Launched now others h config handle m (n, ok got) e s = record {
  started = polled config (run n others).defaults;
  ended = refl;
  up = insert_process-IsStarting now h got (run n others);
  settings = SameSettings-trans s (
      SameSettings-trans (run-SameSettings n others)
        (insert_process-SameSettings now h got (run n others)));
}
finish_start-Launched now others h config handle m (n, err x) e s = cc

launch-SameSettings :
    (c : Context) (h : Text) (config : BackendConfig) (m : ProcessManager)
    → SameSettings m (launch c.os config.backend_type h config m).0
unfolding launch
launch-SameSettings c h config m = record { configs = ground arith; defaults = ground arith }

wait_for_ready-wait_loop :
    (h : Text) (config : BackendConfig) (c : Context) (m : ProcessManager)
    → get_config m h ≡ some config
    → IsStarting h m ⊎ IsServing h m
    → wait_for_ready h c.waits.wakeups m ≡ wait_loop h c.waits.wakeups m
unfolding wait_for_ready subscribe_ready
wait_for_ready-wait_loop h config c m g (inl (p, e, s)) = rw (wait_for_ready, g, e) refl
wait_for_ready-wait_loop h config c m g (inr (p, e, s)) = rw (wait_for_ready, g, e) refl

module _ (c : Context) (h : Text) (config : BackendConfig) (m : ProcessManager)
    (start : IsColdStart c h config m) where
  pub start_backend-Launched :
      Launched h m (start_backend c.os c.waits.launched_at c.waits.launching h m)
  unfolding is_running is_state
  start_backend-Launched =
      rw
        (start_backend-finish_start c.os c.waits.launched_at c.waits.launching h m config
          start.configured (rw start.cold refl))
        (finish_start-Launched c.waits.launched_at c.waits.launching h config start.handle m _
          start.launched (launch-SameSettings c h config m))

  get_config-later : {n : ProcessManager} → SameSettings m n → get_config n h ≡ some config
  get_config-later s = get_config-SameSettings h s ∙ start.configured

  wait_after_start-Waited :
      (r : ProcessManager × Result Text Started)
      → Launched h m r
      → Waited h m (wait_after_start c.waits h r)
  unfolding wait_after_start
  wait_after_start-Waited (n, err e) l = absurd (ground (arith, l.ended))
  wait_after_start-Waited (n, ok s) l =
      let later = SameSettings-trans l.settings (run-SameSettings n c.waits.before_wait) in
      elim start.marked [
        | inl a ↦
            let serving = Announced-run n c.waits.before_wait h l.up a in
            rw
              (
                wait_for_ready-wait_loop h config c (run n c.waits.before_wait)
                    (get_config-later later) (inr serving),
                wait_loop_serving h c.waits.wakeups (run n c.waits.before_wait) serving,
              )
              (record { ended = refl; serving = serving; settings = later })
        | inr (q, woken) ↦
            let up = IsStarting-run n c.waits.before_wait h q l.up in
            let w = wait_loop-Waited h c.waits.wakeups (run n c.waits.before_wait) up woken in
            rw
              (wait_for_ready-wait_loop h config c (run n c.waits.before_wait)
                (get_config-later later) (inl up))
              (Waited-trans later w)
      ]

  ensure_backend_ready-Waited : Waited h m (ensure_backend_ready c.os c.waits h m)
  unfolding ensure_backend_ready in_state start_and_wait
  ensure_backend_ready-Waited = rw start.cold (wait_after_start-Waited _ start_backend-Launched)

touch-IsServing :
    (now : ℕ) (h : Text) (m : ProcessManager) → IsServing h m → IsServing h (touch now h m)
unfolding touch
touch-IsServing now h m (p, e, s) =
    (record p { last_activity = now }, grind (arith, e, get-insert_self), s)

touch-SameSettings : (now : ℕ) (h : Text) (m : ProcessManager) → SameSettings m (touch now h m)
unfolding touch
touch-SameSettings now h m = record { configs = ground arith; defaults = ground arith }

-- The backend gets the request at its port, and the client what comes of it in time.
abbrev pub IsForwarded : Context → BackendConfig → Request → Duration → Handled → Type 0
IsForwarded c config req t r =
    (r.forwarded ≡ some (config.port, req)) × (r.response ≡ some (answer t c.reply))

forward-IsForwarded :
    (c : Context) (h : Text) (req : Request) (config : BackendConfig) (t : Duration)
    (m : ProcessManager)
    → IsServing h m
    → IsForwarded c config req t (forward c h req config.port t m)
unfolding forward increment_in_flight is_state
forward-IsForwarded c h req config t m (p, e, s) = (ground (arith, e, s), ground (arith, e, s))

dispatch-IsForwarded :
    (c : Context) (h : Text) (req : Request) (config : BackendConfig) (m n : ProcessManager)
    → IsColdStart c h config m
    → is_upgrade_request req ≡ false
    → SameSettings m n
    → IsServing h n
    → IsForwarded c config req (request_timeout config m.defaults) (dispatch c h req n)
unfolding dispatch run
dispatch-IsForwarded c h req config m n start plain s serving =
    let touched = touch c.touched_at h n in
    let later = SameSettings-trans s (
      SameSettings-trans (touch-SameSettings c.touched_at h n)
        (run-SameSettings touched c.before_count)) in
    rw (dispatch, get_config-later c h config m start later, plain, later.defaults)
      (forward-IsForwarded c h req config (request_timeout config m.defaults)
        (run touched c.before_count)
        (IsServing-run touched c.before_count h start.left_alone
          (touch-IsServing c.touched_at h n serving)))

route-IsForwarded :
    (c : Context) (h : Text) (req : Request) (config : BackendConfig) (m : ProcessManager)
    → IsColdStart c h config m
    → is_upgrade_request req ≡ false
    → IsForwarded c config req (request_timeout config m.defaults) (route c h req m)
unfolding route has_backend get_config is_state contains_key answer
route-IsForwarded c h req config m start plain =
    let w = ensure_backend_ready-Waited c h config m start in
    rw (route, start.configured, start.cold, w.ended)
      (dispatch-IsForwarded c h req config m (ensure_backend_ready c.os c.waits h m).0 start plain
        w.settings w.serving)

-- A request for a configured backend that is stopped starts that backend and is forwarded to its port
-- once it is ready, and the client gets what comes of it within the request timeout: where the backend
-- can be launched, a task marks it ready before the receiver listens or while the request waits, no
-- other operation is on it from its launch until the request is counted, and the receiver's channel
-- stays open until it is ready. The request is no upgrade, and is neither answered as a challenge nor
-- redirected.
pub handle_request-cold_start :
    (c : Context) (req : Request) (h : Text) (config : BackendConfig) (m : ProcessManager)
    → challenge_response c req ≡ none
    → redirect_port c ≡ none
    → extract_hostname req ≡ some h
    → is_upgrade_request (with_proxy_headers c req) ≡ false
    → IsColdStart c h config m
    → IsForwarded c config
        (with_proxy_headers c req)
        (request_timeout config m.defaults)
        (handle_request c req m)
unfolding handle_request identify
handle_request-cold_start c req h config m no_challenge no_redirect host plain start =
    rw (handle_request, no_challenge, no_redirect, identify, host)
      (route-IsForwarded c h (with_proxy_headers c req) config m start plain)
