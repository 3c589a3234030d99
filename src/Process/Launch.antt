-- ===== src/Process/Launch.antt =====
-- src/process.rs: `start_local_backend`, `get_docker` and `start_docker_backend`. What the operating
-- system and the Docker manager answer is a `Launcher`.
use spawngate.Base.{ℕ, Option, none, some, List, [], ◌∷◌, ◌++◌, Result, ok, err, ok_or, ◌>>=◌}
use spawngate.Base.Text.{Text, codes}
use spawngate.Base.Number.{to_text}
use spawngate.Base.Dict.{Dict, insert}
use spawngate.Config.{BackendConfig, BackendType, local, docker}
use spawngate.Process.State.{Docker, ProcessHandle, local_child, container, ProcessManager}

-- The command of a process: its program, arguments, directory and the variables set for it. The
-- standard input is closed, and the two outputs are pipes.
pub record Command : Type 0 where
  pub program : Text
  pub args : List Text
  pub current_dir : Option Text
  pub env : Dict Text

pub record Launcher : Type 0 where
  -- `cmd.spawn()`, with the process id
  pub spawn : Command → Result Text ℕ
  -- `DockerManager::new`
  pub connect : Option Text → Result Text (Unit {0})
  -- `DockerManager::start_container`, of a manager, with the container id
  pub start_container : Docker → BackendConfig → Text → Text → Result Text Text

-- `cmd.env` for each entry: a later value of a variable replaces an earlier one.
unfoldable pub set_env : Dict Text → Dict Text → Dict Text
set_env [] env = env
set_env ((key, value) ∷ rest) env = set_env rest (insert key value env)

unfoldable pub ready_url : Text → Text → Text
ready_url admin_url hostname = admin_url ++ (codes "/ready/" ++ hostname)

unfoldable pub build_command : Text → Text → Text → BackendConfig → Command
unfolding set_env ready_url
build_command admin_url hostname command config = record {
  program = command;
  args = config.args;
  current_dir = config.working_dir;
  env =
      insert (codes "SERVERLESS_PROXY_READY_URL") (ready_url admin_url hostname)
        (insert (codes "PORT") (to_text config.port) (set_env config.env []));
}

module _ (os : Launcher) where
  unfoldable pub start_local_backend :
      ProcessManager → Text → BackendConfig → Result Text ProcessHandle
  start_local_backend m hostname config = do
    command ← ok_or config.command (codes "Local backend requires 'command' field")
    pid ← os.spawn (build_command m.admin_url hostname command config)
    ok (local_child pid)

  -- The cell is filled by the first caller that connects; later callers get what it holds.
  unfoldable pub get_docker : Option Text → ProcessManager → ProcessManager × Result Text Docker
  get_docker docker_host m = elim m.docker [
    | some d ↦ (m, ok d)
    | none ↦ elim (os.connect docker_host) [
      | ok _ ↦ (
        record m { docker = some (record { endpoint = docker_host }) },
        ok (record { endpoint = docker_host }),
      )
      | err e ↦ (m, err e)
    ]
  ]

  unfoldable pub start_in :
      Result Text Docker → ProcessManager → Text → BackendConfig → Text → Result Text ProcessHandle
  start_in (err e) m hostname config image =
      err (codes "Cannot start Docker backend '" ++ (hostname ++ (codes "': " ++ e)))
  start_in (ok d) m hostname config image =
      elim (os.start_container d config hostname m.admin_url) [
        | ok id ↦ ok (container id d)
        | err e ↦ err (
            codes "Failed to start Docker container for backend '"
            ++ (hostname ++ (codes "' (image: " ++ (image ++ (codes "): " ++ e)))))
      ]

  unfoldable pub start_docker_backend :
      Text → BackendConfig → ProcessManager → ProcessManager × Result Text ProcessHandle
  unfolding get_docker start_in
  start_docker_backend hostname config m = elim config.image [
    | none ↦ (m, err (codes "Docker backend requires 'image' field"))
    | some image ↦
        let (m', d) = get_docker config.docker_host m in (m', start_in d m' hostname config image)
  ]

  unfoldable pub launch :
      BackendType
      → Text
      → BackendConfig
      → ProcessManager
      → ProcessManager × Result Text ProcessHandle
  unfolding start_local_backend start_docker_backend
  launch local hostname config m = (m, start_local_backend m hostname config)
  launch docker hostname config m = start_docker_backend hostname config m
