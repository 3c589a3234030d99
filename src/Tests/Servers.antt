-- ===== src/Tests/Servers.antt =====
-- The accept loops of the two servers.
use spawngate.Base.{arith, ℕ, ◌≡◌, refl, false, none, some, List, [], ◌∷◌, ◌++◌, Result, ok, err}
use spawngate.Base.Text.{Text, codes, text_eq}
use spawngate.Base.Dict.{get}
use spawngate.Base.Lists.{All}
use spawngate.Process.State.{ProcessManager}
use spawngate.Proxy.Http.{Request, header_str}
use spawngate.Proxy.Request.{Handled, handle_request, redirect_port, challenge_response}
use spawngate.Main.Connections.{connection}
use spawngate.Admin.{AdminResponse}
use spawngate.Main.Servers.{ProxyServer}
use spawngate.Server.{
  shaken, handshake_failed, Event, accepted, accept_failed, shutdown_changed, requested, Server,
  listen,
}
use spawngate.Server.Loop.{Asks, Quiet}
use spawngate.Server.Proxying.{Exchange, run_proxy}
use spawngate.Server.Redirects.{TurnedAway, run_proxy-redirects}
use spawngate.Server.Administration.{AdminServer, Denied, Hides, run_admin, run_admin-Denied}
use spawngate.Tests.Data.{serving}
use spawngate.Tests.Requests.{context, request}
use spawngate.Tests.Operations.{callback_with}

abbrev plain_server : ProxyServer Text
plain_server = record {
  bind_addr = codes "0.0.0.0:80";
  pool_config = record { max_idle_per_host = 10; idle_timeout = 90000 };
  tls_acceptor = none;
  https_redirect_port = some 443;
  acme_challenges = false;
}

abbrev exchange : Exchange
exchange = record { challenges = []; environment = context; request = request }

abbrev arrivals : List (Event Text Exchange)
arrivals =
    accept_failed (codes "too many open files")
    ∷ accepted (codes "10.1.2.3") shaken
    ∷ shutdown_changed false
    ∷ requested 0 exchange
    ∷ requested 7 exchange
    ∷ []

abbrev of_run :
    Result Text (Server Text ProcessManager Handled) → Server Text ProcessManager Handled
of_run (ok s) = s
of_run (err e) = listen serving

abbrev so_far : Server Text ProcessManager Handled
so_far = of_run (run_proxy plain_server (ok tt) arrivals serving)

run_proxy-so_far : run_proxy plain_server (ok tt) arrivals serving ≡ ok so_far
unfolding run_proxy
run_proxy-so_far = refl

run_proxy-redirects_example :
    (final : Server Text ProcessManager Handled) × (h : Handled) × (run_proxy plain_server
        (ok tt)
        (arrivals ++ (requested 0 exchange ∷ []))
        serving
      ≡ ok final)
    × (so_far.manager ≡ serving)
    × (final.manager ≡ serving)
    × (final.answers ≡ (0, h) ∷ so_far.answers)
    × TurnedAway plain_server 443 exchange serving h
unfolding run_proxy handle_request challenge_response connection redirect_port
run_proxy-redirects_example =
    run_proxy-redirects plain_server 443 arrivals serving so_far 0 (codes "10.1.2.3") exchange refl
      refl run_proxy-so_far refl

abbrev latecomers : List (Event Text Exchange)
latecomers = accepted (codes "10.1.2.4") shaken ∷ shutdown_changed false ∷ []

abbrev admin_server : AdminServer Text
admin_server = record {
  bind_addr = codes "127.0.0.1:9999";
  tls_acceptor = none;
  auth_token = codes "secret";
}

abbrev guesses : List (Event Text (ℕ × Request))
guesses =
    accepted (codes "10.1.2.3") (handshake_failed (codes "no certificate"))
    ∷ requested 0 (50, callback_with (codes "Bearer guess"))
    ∷ []

guesses-Denied : All (Asks (Denied admin_server)) guesses
unfolding text_eq get header_str
guesses-Denied = (tt, ((λ e. ground arith, λ e. ground arith), tt))

abbrev of_admin :
    Result Text (Server Text ProcessManager AdminResponse)
    → Server Text ProcessManager AdminResponse
of_admin (ok s) = s
of_admin (err e) = listen serving

abbrev refused_guesses : Server Text ProcessManager AdminResponse
refused_guesses = of_admin (run_admin admin_server (ok tt) guesses serving)

run_admin-refused_guesses : run_admin admin_server (ok tt) guesses serving ≡ ok refused_guesses
unfolding run_admin
run_admin-refused_guesses = refl

run_admin-Denied_example : Quiet Hides serving refused_guesses
run_admin-Denied_example =
    run_admin-Denied admin_server (ok tt) guesses serving refused_guesses guesses-Denied
      run_admin-refused_guesses
