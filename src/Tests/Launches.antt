-- ===== src/Tests/Launches.antt =====
-- Starts of the backend, as a process and as a container.
use spawngate.Base.{◌≡◌, refl, none, some, [], ok, err, ◌≢◌}
use spawngate.Base.Text.{codes, text_eq}
use spawngate.Base.Dict.{get}
use spawngate.Config.{BackendConfig, standard_defaults, local_config, docker_config}
use spawngate.Process.State.{
  is_state, Docker, ProcessHandle, container, ProcessManager, new, get_config, get_state, starting,
  ready,
}
use spawngate.Process.Steps.{run}
use spawngate.Process.Launch.{Launcher, start_local_backend, start_docker_backend, launch}
use spawngate.Process.Start.{polled, start_backend}
use spawngate.Process.Starting.{Inserted, start_backend-Inserted}
use spawngate.Tests.Data.{app, app_config, fresh}

-- Every process gets id 7, and containers get the name of the backend.
abbrev pub good_os : Launcher
good_os = record {
  spawn = λ _. ok 7;
  connect = λ _. ok tt;
  start_container = λ _ _ hostname _. ok hostname;
}

-- Nothing can be spawned.
abbrev bad_os : Launcher
bad_os = record {
  spawn = λ _. err (codes "No such file or directory");
  connect = λ _. ok tt;
  start_container = λ _ _ hostname _. ok hostname;
}

start_backend-fresh :
    (start_backend good_os 3 [] app fresh).1 ≡ ok (polled app_config standard_defaults)
unfolding start_backend run new get_config get_state get text_eq local_config is_state launch
start_backend-fresh = refl

start_backend-Inserted_example :
    (config : BackendConfig) × (handle : ProcessHandle) × (get_config fresh app ≡ some config)
    × (get_state fresh app ≢ starting)
    × (get_state fresh app ≢ ready)
    × ((launch good_os config.backend_type app config fresh).1 ≡ ok handle)
    × Inserted app handle (start_backend good_os 3 [] app fresh).0
start_backend-Inserted_example = start_backend-Inserted good_os 3 [] app fresh start_backend-fresh

start_local_backend-bad :
    start_local_backend bad_os fresh app app_config ≡ err (codes "No such file or directory")
unfolding start_local_backend local_config
start_local_backend-bad = refl

abbrev default_docker : Docker
default_docker = record { endpoint = none }

-- Connected to the default endpoint.
abbrev with_docker : ProcessManager
with_docker = record fresh { docker = some default_docker }

-- Its configuration names an endpoint of its own.
abbrev remote_config : BackendConfig
remote_config = record (docker_config (codes "nginx") 8080) {
  docker_host = some (codes "tcp://10.0.0.5:2375");
}

start_docker_backend-remote :
    (start_docker_backend good_os app remote_config with_docker).1
    ≡ ok (container app default_docker)
unfolding start_docker_backend docker_config
start_docker_backend-remote = refl
