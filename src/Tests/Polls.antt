-- ===== src/Tests/Polls.antt =====
-- A request that waits while the health of its backend is polled.
use spawngate.Base.{◌≡◌, refl, arith, true, false, [], ◌∷◌, ◌++◌}
use spawngate.Base.Text.{codes, text_eq}
use spawngate.Base.Dict.{get}
use spawngate.Config.{local_config, request_timeout, startup_timeout}
use spawngate.Process.State.{local_child, new, get_config, get_state}
use spawngate.Process.Steps.{run, increments}
use spawngate.Process.Launch.{launch}
use spawngate.Process.Health.{
  Probe, status_line, not_connected, check_health, Round, became_ready, starting_loop,
}
use spawngate.Process.Startup.{InTime}
use spawngate.Proxy.Ready.{notified}
use spawngate.Proxy.Request.{
  Context, answered, handle_request, challenge_response, redirect_port, request_id_of,
  proxy_headers,
}
use spawngate.Proxy.Forwarding.{with_proxy_headers}
use spawngate.Proxy.ColdStart.{IsForwarded}
use spawngate.Proxy.Polled.{poll_ops, IsPolled, started_at, handle_request-polled}
use spawngate.Tests.Data.{app, app_config, fresh}
use spawngate.Tests.Requests.{context, request}
use spawngate.Tests.Waits.{cold-host, cold_plain, page}

abbrev early_round : Probe → Round
early_round probe = record {
  elapsed = 200;
  during_check = increments (codes "other.local") ∷ [];
  probe = probe;
  checked_at = 100;
  during_sleep = [];
}

early_round-InTime : (probe : Probe) → InTime app 30000 (early_round probe)
unfolding text_eq
early_round-InTime probe = record {
  early = omega arith;
  check_alone = (refl, tt);
  sleep_alone = tt;
}

abbrev no_content : Probe
no_content = status_line (codes "HTTP/1.1 204 No Content\r\n")

passing : check_health no_content ≡ true
unfolding check_health
passing = refl

failing : check_health not_connected ≡ false
unfolding check_health
failing = refl

abbrev polled_context : Context
polled_context = record context {
  waits = record {
    stopping_sleep = [];
    launching = [];
    launched_at = 0;
    before_wait = [];
    wakeups =
        record {
          meanwhile = poll_ops app (early_round not_connected ∷ []) (early_round no_content);
          received = notified;
        }
        ∷ [];
  };
  reply = answered page;
}

polled_context-IsPolled :
    IsPolled polled_context app 30000 (early_round not_connected ∷ []) (early_round no_content)
polled_context-IsPolled = record {
  before_wait = refl;
  rounds = [];
  wakeups = refl;
  left_alone = tt;
  fail = ((early_round-InTime not_connected, failing), tt);
  in_time = early_round-InTime no_content;
  passes = passing;
}

handle_request-polled_example :
    (starting_loop app
        (startup_timeout app_config fresh.defaults)
        ((early_round not_connected ∷ []) ++ (early_round no_content ∷ []))
        (started_at polled_context app fresh)
      ≡ (
        run
            (started_at polled_context app fresh)
            (poll_ops app (early_round not_connected ∷ []) (early_round no_content)),
        became_ready,
      ))
    × IsForwarded polled_context app_config
        (with_proxy_headers polled_context request)
        (request_timeout app_config fresh.defaults)
        (handle_request polled_context request fresh)
unfolding new get_config get_state get text_eq launch local_config startup_timeout
    challenge_response redirect_port request_id_of proxy_headers
handle_request-polled_example =
    handle_request-polled polled_context app app_config fresh (local_child 7)
      (early_round not_connected ∷ []) (early_round no_content) request [] refl refl cold-host
      cold_plain refl refl refl polled_context-IsPolled
