-- ===== src/Tests/Containers.antt =====
-- A Docker daemon that counts the calls it gets, and a backend with an image.
use spawngate.Base.{
  List, ◌∷◌, Result, Option, err, ℕ, suc, ◌*◌, ◌++◌, ◌≡◌, refl, arith, true, some, none, [], ok,
}
use spawngate.Base.Text.{Text, codes, text_eq}
use spawngate.Base.Integer.{pos}
use spawngate.Base.Number.{to_text, digits, digits-to_text}
use spawngate.Config.{BackendConfig, docker, docker_config, standard_defaults}
use spawngate.Base.Dict.{get}
use spawngate.Process.State.{ProcessManager, ProcessHandle, is_state, new, get_config}
use spawngate.Process.Launch.{Command, Launcher, launch}
use spawngate.Process.Steps.{run}
use spawngate.Process.Start.{polled, start_backend}
use spawngate.Process.Starting.{Inserted}
use spawngate.Process.Containers.{with_manager, Runs, start_backend-Runs}
use spawngate.Base.Lists.{All}
use spawngate.DockerManager.Logs.{
  LogOutput, output, std_in, stdout, stderr, console, ended, stop_changed, stream_logs, items,
  LogLine, Logged, IsTidy, stream_logs-Logged,
}
use spawngate.DockerManager.Client.{Client}
use spawngate.DockerManager.Memory.{Floats, parse_memory_limit}
use spawngate.DockerManager.Units.{ReadsNumbers, unit_mb, unit_text, parse_memory_limit-to_text}
use spawngate.DockerManager.Pull.{pull_image_if_needed}
use spawngate.DockerManager.Container.{container_config, start_container}

abbrev naturals : Floats
naturals = record { F = ℕ; parse_f64 = digits 0; times_as_i64 = λ x k. pos (x * k) }

naturals-ReadsNumbers : ReadsNumbers naturals
naturals-ReadsNumbers = record { of = λ n. n; parse = digits-to_text; exact = λ n k h. refl }

parse_memory_limit-to_text_example :
    parse_memory_limit naturals (to_text 512 ++ unit_text unit_mb) ≡ ok (pos (512 * 1048576))
parse_memory_limit-to_text_example =
    parse_memory_limit-to_text naturals 512 unit_mb naturals-ReadsNumbers (ground arith)

abbrev daemon : Client ℕ
daemon = record {
  inspect_image = λ image d. true;
  create_image = λ image d. (suc d, []);
  create_container = λ c d. (suc d, ok (codes "c1"));
  start_container = λ id d. (suc d, ok tt);
  stop_container = λ id seconds d. (suc d, ok tt);
  kill_container = λ id d. (suc d, ok tt);
  remove_container = λ id d. (suc d, ok tt);
  inspect_container = λ id d. ok (some true);
}

abbrev nginx : BackendConfig
nginx = docker_config (codes "nginx") 8080

abbrev host : Text
host = codes "web.local"

abbrev url : Text
url = codes "http://127.0.0.1:9999"

no_name : nginx.container_name ≡ none
unfolding docker_config
no_name = refl

abbrev web : ProcessManager
web = new ((host, nginx) ∷ []) standard_defaults url

abbrev no_spawn : Command → Result Text ℕ
no_spawn c = err (codes "no such file")

abbrev connects : Option Text → Result Text (Unit {0})
connects address = ok tt

abbrev os : Launcher
os = with_manager no_spawn connects naturals daemon 0

get-web : get_config web host ≡ some nginx
unfolding get_config new get text_eq
get-web = refl

nginx-docker : nginx.backend_type ≡ docker
unfolding docker_config
nginx-docker = refl

start-web : (start_backend os 5 [] host web).1 ≡ ok (polled nginx standard_defaults)
unfolding start_backend docker_config get new text_eq is_state launch start_container
    pull_image_if_needed container_config run
start-web = refl

start_backend-Runs_example :
    (handle : ProcessHandle) × Runs no_spawn connects naturals daemon 0 host web.admin_url nginx
      handle
    × Inserted host handle (start_backend os 5 [] host web).0
start_backend-Runs_example =
    start_backend-Runs no_spawn connects naturals daemon 0 5 [] host web nginx get-web nginx-docker
      start-web

-- A line on each output, a chunk that is no text, and a blank one.
abbrev printed : List LogOutput
printed =
    output stdout (some (codes "ready\n"))
    ∷ output stderr none
    ∷ output stderr (some (codes "slow \n"))
    ∷ output console (some (codes "\n"))
    ∷ std_in
    ∷ []

stream_logs-Logged_example :
    (lines : List LogLine) × (stream_logs
        (codes "app.local")
        (items printed (ended ∷ stop_changed ∷ []))
      ≡ (lines, some (stop_changed ∷ [])))
    × Logged (codes "app.local") printed lines
    × All (IsTidy (codes "app.local")) lines
stream_logs-Logged_example =
    stream_logs-Logged (codes "app.local") printed ended (stop_changed ∷ []) tt
