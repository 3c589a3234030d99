-- ===== src/Tests/Wiring.antt =====
-- The start of the program with a certificate by HTTP-01, and its end at a signal.
use spawngate.Base.Dict.{get}
use spawngate.Process.Steps.{decrements}
use spawngate.Base.{
  ◌++◌, ◌<◌, ◌≡◌, ◌↔◌, refl, arith, true, false, some, none, [], ◌∷◌, Result, ok, err, is_some,
}
use spawngate.Base.Text.{Text, codes}
use spawngate.Base.Number.{to_text}
use spawngate.Config.{
  AcmeChallengeType, Config, standard_server, standard_defaults, standard_acme, http_port,
  https_port,
}
use spawngate.Acme.Certificate.{Paths}
use spawngate.Main.Tls.{Host}
use spawngate.Main.Servers.{ProxyServer, Servers, start}
use spawngate.Main.Signals.{ctrl_c, sighup, Arrival}
use spawngate.Main.Wiring.{by_http01, start-https, start-redirect}
use spawngate.Main.Exit.{Ended, shut_down, shut_down-Absent}
use spawngate.Main.Connections.{connection}
use spawngate.Main.Challenges.{start-answers}
use spawngate.Acme.Answers.{waiting}
use spawngate.Error.{plain}
use spawngate.Proxy.Request.{handle_request, reply_with}
use spawngate.Tests.Requests.{context}
use spawngate.Tests.Certificates.{server, domain, challenge, key_auth, unserved, validation}
use spawngate.Tests.Data.{
  app, app_config, serving, quiet_weather, quiet_weather-Sleeps, quiet_weather-IsCalm,
}

abbrev empty_paths : Paths
empty_paths = record {
  exists = λ p. false;
  canonicalize = λ p. ok p;
  is_dir = λ p. true;
  parent = λ p. none;
  file_name = λ p. some p;
  join = λ dir name. dir ++ (codes "/" ++ name);
}

abbrev machine : Host
machine = record {
  paths = empty_paths;
  create_dir_all = λ path. ok tt;
  open_file = λ path. err (codes "no such file");
  pem_certs = λ text. [];
  pem_items = λ text. [];
  simple_self_signed = λ names. ok (codes "cert", record { der = codes "der"; pem = codes "pem" });
  private_key_of = λ der. ok der;
  with_single_cert = λ certs key. ok tt;
}

abbrev settings : Config
settings = record {
  server = record standard_server {
    port = 80;
    force_https = true;
    acme = record standard_acme { enabled = true; domains = codes "example.com" ∷ [] };
  };
  defaults = standard_defaults;
  backends = (app, app_config) ∷ [];
}

abbrev parse_addr : Text → Result Text Text
parse_addr t = ok t

abbrev no_servers : Servers Text Text
no_servers = record {
  manager = serving;
  http = none;
  https = none;
  acme = none;
  admin_addr = [];
  admin_token = [];
}

abbrev started : Servers Text Text
started = elim (start parse_addr Text machine settings (codes "token")) [
  | ok s ↦ s
  | err e ↦ no_servers
]

start-started : start parse_addr Text machine settings (codes "token") ≡ ok started
unfolding start http_port
start-started = refl

start-https_example :
    (is_some started.https ≡ true)
    ↔ ((0 < https_port settings.server) × (by_http01 settings.server ≡ false))
start-https_example =
    start-https machine parse_addr Text settings (codes "token") started start-started

by_http01-settings : by_http01 settings.server ≡ true
unfolding by_http01
by_http01-settings = refl

https_port-settings : 0 < https_port settings.server
unfolding https_port
https_port-settings = omega arith

http_port-settings : 0 < http_port settings.server
unfolding http_port
http_port-settings = omega arith

start-redirect_example :
    (started.https ≡ none)
    × ((p : ProxyServer Text) × (started.http ≡ some p)
        × (p.https_redirect_port ≡ some (https_port settings.server)))
start-redirect_example =
    start-redirect machine parse_addr Text settings (codes "token") started start-started
      by_http01-settings refl http_port-settings https_port-settings

-- A reload of a file without backends, and Ctrl+C; then a request on an open connection is done.
abbrev reload : Arrival
reload = record { meanwhile = []; signal = sighup (ok []); weather = λ k. quiet_weather }

abbrev interrupt : Arrival
interrupt = record { meanwhile = []; signal = ctrl_c; weather = λ k. quiet_weather }

shut_down-Absent_example :
    (e : Ended) × (shut_down
        (λ t. ok settings)
        (λ k. quiet_weather)
        true
        (some (codes "/run/spawngate.pid"))
        (ok tt)
        (some (codes "4711\n"))
        ((reload ∷ []) ++ (interrupt ∷ []))
        (decrements app ∷ [])
        serving
      ≡ some e)
    × ((h : Text) → get h e.manager.processes ≡ none)
shut_down-Absent_example =
    shut_down-Absent (λ t. ok settings) (λ k. quiet_weather) true
      (some (codes "/run/spawngate.pid")) (ok tt) (some (codes "4711\n")) (reload ∷ []) interrupt []
      (decrements app ∷ []) serving ((λ k. quiet_weather-Sleeps), tt) (λ k. quiet_weather-Sleeps) tt
      (λ k. quiet_weather-IsCalm) (tt, tt)

abbrev http_proxy : ProxyServer Text
http_proxy = record {
  bind_addr = codes "0.0.0.0:80";
  pool_config = record { max_idle_per_host = 10; idle_timeout = 90000 };
  tls_acceptor = none;
  https_redirect_port = some 443;
  acme_challenges = true;
}

started-http_proxy : started.http ≡ some http_proxy
unfolding start http_port https_port to_text
started-http_proxy = refl

-- Whatever the context says of the connection.
start-answers_example :
    handle_request
      (connection http_proxy
        (waiting server domain challenge key_auth 1 AcmeChallengeType.http01 false
          unserved).http01_challenges
        context)
      validation
      serving
    ≡ reply_with serving (record {
      status = 200;
      headers = (codes "content-type", codes "text/plain") ∷ [];
      body = plain (codes "t1.thumb");
    })
start-answers_example =
    start-answers server machine parse_addr settings (codes "token") started http_proxy domain
      challenge key_auth 1 false unserved context validation serving start-started
      by_http01-settings started-http_proxy refl
