-- ===== src/Proxy/Polled.antt =====
-- A request that waits while the health of its backend is polled.
use spawngate.Base.{
  ◌≡◌, refl, ap, ◌∙◌, sym, none, some, false, true, List, [], ◌∷◌, ◌++◌, ok, inl, inr, subst,
}
use mathlib.Core.List.{append_assoc}
use spawngate.Base.Text.{Text}
use spawngate.Base.Lists.{All, All-append}
use spawngate.Config.{Duration, BackendConfig, request_timeout, startup_timeout}
use spawngate.Process.State.{stopped, ProcessHandle, ProcessManager, get_config, get_state}
use spawngate.Process.Steps.{Op, step, run, run-append, marks_ready}
use spawngate.Process.Launch.{launch}
use spawngate.Process.Start.{start_backend}
use spawngate.Process.Health.{check_health, Round, became_ready, starting_loop}
use spawngate.Process.Startup.{
  Elsewhere, InTime, IsStarting, IsStarting-run, mark_ready-MadeReady, starting-failed,
  starting-passed,
}
use spawngate.Proxy.Http.{Request}
use spawngate.Proxy.Hostname.{extract_hostname}
use spawngate.Proxy.Ready.{Wakeup, notified}
use spawngate.Proxy.Waiting.{Announced, Woken, now}
use spawngate.Proxy.Upgrade.{is_upgrade_request}
use spawngate.Proxy.Request.{Context, handle_request, challenge_response, redirect_port}
use spawngate.Proxy.Forwarding.{with_proxy_headers}
use spawngate.Proxy.ColdStart.{
  IsColdStart, IsForwarded, start_backend-Launched, handle_request-cold_start,
}

-- What all tasks do in the rounds of the poll whose checks fail, and in the one whose check passes.
abbrev pub poll_ops : Text → List Round → Round → List Op
poll_ops h [] r = r.during_check ++ (marks_ready r.checked_at h ∷ [])
poll_ops h (f ∷ fs) r = f.during_check ++ (f.during_sleep ++ poll_ops h fs r)

-- The checks of these rounds fail, before the timeout, and other tasks leave the backend alone.
abbrev pub Fail : Text → Duration → List Round → Type 0
Fail h timeout = All (λ f. InTime h timeout f × (check_health f.probe ≡ false))

Announced-append :
    (h : Text) (os ps : List Op) → Elsewhere h os → Announced h ps → Announced h (os ++ ps)
Announced-append h os ps q a = record {
  before = os ++ a.before;
  after = a.after;
  now = a.now;
  parts =
      ap (λ x. os ++ x) a.parts ∙ sym (append_assoc os a.before (marks_ready a.now h ∷ a.after));
  before_alone = All-append _ os a.before q a.before_alone;
  after_alone = a.after_alone;
}

Announced-poll_ops :
    (h : Text) (timeout : Duration) (failed : List Round) (r : Round)
    → Fail h timeout failed
    → InTime h timeout r
    → Announced h (poll_ops h failed r)
Announced-poll_ops h timeout [] r q t = record {
  before = r.during_check;
  after = [];
  now = r.checked_at;
  parts = refl;
  before_alone = t.check_alone;
  after_alone = tt;
}
Announced-poll_ops h timeout (f ∷ fs) r ((tf, x), q) t =
    Announced-append h f.during_check _ tf.check_alone
      (Announced-append h f.during_sleep _ tf.sleep_alone (Announced-poll_ops h timeout fs r q t))

starting_loop-poll_ops :
    (h : Text) (timeout : Duration) (failed : List Round) (r : Round) (rs : List Round)
    (m : ProcessManager)
    → IsStarting h m
    → Fail h timeout failed
    → InTime h timeout r
    → check_health r.probe ≡ true
    → starting_loop h timeout (failed ++ (r ∷ rs)) m ≡ (run m (poll_ops h failed r), became_ready)
unfolding run step
starting_loop-poll_ops h timeout [] r rs m up q t passed =
    let (marked, made) =
      mark_ready-MadeReady r.checked_at (run m r.during_check) h
        (IsStarting-run m r.during_check h t.check_alone up) in
    starting-passed h timeout r rs m up t passed marked
    ∙ ap (λ n. (n, became_ready))
        (sym (run-append m r.during_check (marks_ready r.checked_at h ∷ [])))
starting_loop-poll_ops h timeout (f ∷ fs) r rs m up ((tf, failing), q) t passed =
    let later = run (run m f.during_check) f.during_sleep in
    starting-failed h timeout f (fs ++ (r ∷ rs)) m up tf failing
    ∙ starting_loop-poll_ops h timeout fs r rs later
        (IsStarting-run _ f.during_sleep h tf.sleep_alone
          (IsStarting-run m f.during_check h tf.check_alone up))
        q t passed
    ∙ ap (λ n. (n, became_ready))
        (sym (
          run-append m f.during_check (f.during_sleep ++ poll_ops h fs r)
          ∙ run-append (run m f.during_check) f.during_sleep (poll_ops h fs r)))

-- The polls of a backend that was just started: the checks of `failed` fail and that of `passing` passes,
-- all within its startup timeout, and other tasks leave the backend alone. The request is notified when
-- the passing check marks the backend ready.
pub record IsPolled (c : Context) (h : Text) (timeout : Duration) (failed : List Round)
    (passing : Round) : Type 0 where
  pub before_wait : c.waits.before_wait ≡ []
  pub rounds : List Wakeup
  pub wakeups :
      c.waits.wakeups
      ≡ record { meanwhile = poll_ops h failed passing; received = notified } ∷ rounds
  pub left_alone : Elsewhere h c.before_count
  pub fail : Fail h timeout failed
  pub in_time : InTime h timeout passing
  pub passes : check_health passing.probe ≡ true

-- The manager in which the backend was started.
abbrev pub started_at : Context → Text → ProcessManager → ProcessManager
started_at c h m = (start_backend c.os c.waits.launched_at c.waits.launching h m).0

module _ (c : Context) (h : Text) (config : BackendConfig) (m : ProcessManager)
    (handle : ProcessHandle) (failed : List Round) (passing : Round) where
  polled-IsColdStart :
      get_config m h ≡ some config
      → get_state m h ≡ stopped
      → (launch c.os config.backend_type h config m).1 ≡ ok handle
      → IsPolled c h (startup_timeout config m.defaults) failed passing
      → IsColdStart c h config m
  polled-IsColdStart g s l p = record {
    configured = g;
    cold = s;
    handle = handle;
    launched = l;
    marked = inr (
      subst (Elsewhere h) (sym p.before_wait) tt,
      subst (Woken h) (sym p.wakeups)
          (now (Announced-poll_ops h _ failed passing p.fail p.in_time) (inl refl)),
    );
    left_alone = p.left_alone;
  }

  -- A request for a configured backend that is stopped, and can be launched, is forwarded to its port,
  -- and the client gets what comes of it within the request timeout, when the health poll that the start
  -- spawned has a check that passes within the startup timeout, after checks that fail; where other tasks
  -- leave the backend alone until the request is counted. The poll ends its first phase with that check,
  -- in the manager that the request goes on with. The request is no upgrade, and is neither answered as a
  -- challenge nor redirected.
  pub handle_request-polled :
      (req : Request) (rs : List Round)
      → challenge_response c req ≡ none
      → redirect_port c ≡ none
      → extract_hostname req ≡ some h
      → is_upgrade_request (with_proxy_headers c req) ≡ false
      → get_config m h ≡ some config
      → get_state m h ≡ stopped
      → (launch c.os config.backend_type h config m).1 ≡ ok handle
      → IsPolled c h (startup_timeout config m.defaults) failed passing
      → (starting_loop h
            (startup_timeout config m.defaults)
            (failed ++ (passing ∷ rs))
            (started_at c h m)
          ≡ (run (started_at c h m) (poll_ops h failed passing), became_ready))
        × IsForwarded c config
            (with_proxy_headers c req)
            (request_timeout config m.defaults)
            (handle_request c req m)
  handle_request-polled req rs no_challenge no_redirect host plain g s l p =
      let cold = polled-IsColdStart g s l p in
      (
        starting_loop-poll_ops h _ failed passing rs (started_at c h m)
            (start_backend-Launched c h config m cold).up p.fail p.in_time p.passes,
        handle_request-cold_start c req h config m no_challenge no_redirect host plain cold,
      )
