-- ===== src/Tests/Operations.antt =====
-- Health monitoring, reloads and the admin API.
use spawngate.Base.{◌≡◌, arith, refl, ◌&&◌, not, some, List, [], ◌∷◌, leb}
use spawngate.Base.Text.{Text, codes, text_eq, includes}
use spawngate.Base.Dict.{Dict, get, insert, contains_key}
use spawngate.Config.{BackendConfig, standard_defaults, local_config}
use spawngate.Process.State.{is_state, ProcessManager, get_config, get_defaults, new}
use spawngate.Process.Ops.{insert_process, mark_ready, mark_stopping}
use spawngate.Process.Stop.{sigterm, stop_backend, drain, end_process}
use spawngate.Process.Steps.{run, step, touches}
use spawngate.Process.Health.{Probe, status_line, not_connected, Round, monitor_loop}
use spawngate.Process.Serving.{IsSpared, Serves}
use spawngate.Process.Monitoring.{longest_failure, Outcome, monitor_loop-Outcome}
use spawngate.Process.Reload.{ReloadResult, apply_config}
use spawngate.Process.Reloading.{apply_config-result}
use spawngate.Proxy.Http.{Request, header_str}
use spawngate.Admin.{handle_admin_request}
use spawngate.Admin.Guard.{handle_admin_request-marks, Reported}
use spawngate.Tests.Data.{
  app, app_config, serving, app_process, get-serving, quiet_weather, after_stop,
}

abbrev round : Probe → Round
round probe = record {
  elapsed = 0;
  during_check = [];
  probe = probe;
  checked_at = 100;
  during_sleep = touches 40 app ∷ [];
}

-- Two checks fail, one passes, and three fail.
abbrev flaky : List Round
flaky =
    round not_connected
    ∷ round (status_line (codes "HTTP/1.1 500 Oops\r\n"))
    ∷ round (status_line (codes "HTTP/1.1 204 No Content\r\n"))
    ∷ round not_connected
    ∷ round not_connected
    ∷ round not_connected
    ∷ []

spared : (probe : Probe) → IsSpared app (round probe)
spared probe = record { asleep = (tt, tt); checking = tt }

serving-Serves : Serves app 0 serving
serving-Serves = record {
  process = app_process;
  running = get-serving;
  is_ready = refl;
  failures = refl;
}

monitor_loop-Outcome_example :
    Outcome app (leb 3 (longest_failure 0 flaky)) (monitor_loop app 3 flaky serving)
monitor_loop-Outcome_example =
    monitor_loop-Outcome app 3 0 flaky serving serving-Serves (ground arith) (ground arith)
      (spared _, (spared _, (spared _, (spared _, (spared _, (spared _, tt))))))

-- The new configuration has another backend in the place of the old one.
abbrev new_backends : Dict BackendConfig
new_backends = (codes "new.local", app_config) ∷ []

abbrev reloaded : ProcessManager
reloaded = record after_stop { configs = new_backends; defaults = standard_defaults }

abbrev reload_result : ReloadResult
reload_result = record { added = codes "new.local" ∷ []; removed = app ∷ []; updated = [] }

apply_config-serving :
    apply_config (λ _. quiet_weather) new_backends standard_defaults serving
    ≡ some (reloaded, sigterm 7 ∷ [], reload_result)
unfolding apply_config run step mark_ready get insert_process insert text_eq is_state new
    stop_backend drain local_config mark_stopping end_process
apply_config-serving = refl

apply_config-result_example :
    (includes reload_result.added app
      ≡ (contains_key app new_backends && not (contains_key app serving.configs)))
    × (includes reload_result.removed app
        ≡ (contains_key app serving.configs && not (contains_key app new_backends)))
    × (includes reload_result.updated app
        ≡ (contains_key app new_backends && contains_key app serving.configs))
    × (get_config reloaded app ≡ get app new_backends)
    × (get_defaults reloaded ≡ standard_defaults)
apply_config-result_example =
    apply_config-result (λ _. quiet_weather) new_backends standard_defaults serving reloaded
      (sigterm 7 ∷ []) reload_result apply_config-serving app

abbrev pub callback_with : Text → Request
callback_with auth = record {
  method = codes "POST";
  path = codes "/ready/app.local";
  path_and_query = some (codes "/ready/app.local");
  headers = (codes "authorization", record { to_str = some auth }) ∷ [];
}

handle_admin_request-marks_example :
    ((handle_admin_request 50 (callback_with (codes "Bearer secret")) (codes "secret") serving).0
      ≡ (mark_ready 50 app serving).0)
    × Reported app serving (
      (handle_admin_request 50 (callback_with (codes "Bearer secret")) (codes "secret") serving).0,
      (handle_admin_request 50
          (callback_with (codes "Bearer secret"))
          (codes "secret")
          serving).1.status,
    )
unfolding text_eq get header_str
handle_admin_request-marks_example =
    handle_admin_request-marks 50 (callback_with (codes "Bearer secret")) (codes "secret") b'a'
      (codes "pp.local") serving refl refl refl
