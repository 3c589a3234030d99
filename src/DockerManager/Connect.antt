-- ===== src/DockerManager/Connect.antt =====
-- src/docker.rs: how the manager connects to the daemon.
use spawngate.Base.{
  Bool, true, false, ◌||◌, not, Option, none, some, List, [], ◌∷◌, ◌++◌, Result, ok, err,
  if◌then◌else◌, unwrap_or,
}
use spawngate.Base.Text.{Text, codes, starts_with, contains}
use spawngate.Base.Strings.{trim_start_matches}
use spawngate.Base.Lists.{is_empty}
use spawngate.Config.{join}

-- The environment, the file system, and the client library, whose clients are of type `C`.
pub record Host (C : Type 0) : Type 0 where
  pub var : Text → Option Text
  pub exists : Text → Bool
  pub connect_with_socket : Text → Result Text C
  pub connect_with_http : Text → Result Text C
  pub connect_with_socket_defaults : Result Text C
  pub ping : C → Result Text (Unit {0})

unfoldable pub answers : Result Text (Unit {0}) → Bool
answers (ok _) = true
answers (err e) = false

module _ {C : Type 0} (host : Host C) where
  with_error : Text → Text → Result Text C → Result Text C
  with_error before after (ok c) = ok c
  with_error before after (err e) = err (before ++ (e ++ after))

  unfoldable pub connect_to_host : Text → Result Text C
  unfolding with_error starts_with trim_start_matches
  connect_to_host address =
      let socket_path = trim_start_matches (codes "unix://") address in
      if starts_with (codes "unix://") address
      then with_error (codes "Cannot connect to Unix socket '" ++ (socket_path ++ codes "': ")) []
          (host.connect_with_socket socket_path)
      else if starts_with (codes "tcp://") address || starts_with (codes "http://") address
      then with_error (codes "Cannot connect to TCP endpoint '" ++ (address ++ codes "': ")) []
          (host.connect_with_http address)
      else err (
          codes "Invalid docker_host format: '"
          ++ (address ++ codes "'. Expected 'unix:///path/to/socket' or 'tcp://host:port'"))

  unfoldable pub socket_paths : List (Text × Text)
  socket_paths =
      let home = unwrap_or (host.var (codes "HOME")) [] in
      let xdg_runtime = unwrap_or (host.var (codes "XDG_RUNTIME_DIR")) [] in
      (codes "Linux default", codes "/var/run/docker.sock")
      ∷ (codes "Docker Desktop (macOS)", home ++ codes "/.docker/run/docker.sock")
      ∷ (codes "Colima (macOS)", home ++ codes "/.colima/default/docker.sock")
      ∷ (codes "Rancher Desktop", home ++ codes "/.rd/docker.sock")
      ∷ (codes "Podman (Linux)", xdg_runtime ++ codes "/podman/podman.sock")
      ∷ []

  fall_back : List Text → Result Text C
  fall_back tried = elim host.connect_with_socket_defaults [
    | ok c ↦ ok c
    | err e ↦ err (
        codes "Cannot connect to Docker daemon. "
        ++ ((if is_empty tried
              then codes "No Docker socket found at common locations"
              else codes "Tried:\n  - " ++ join (codes "\n  - ") tried)
            ++ (codes
                  "\n\nTo fix this:\n- Start Docker Desktop, Colima, or dockerd\n- Or set DOCKER_HOST environment variable\n- Or specify docker_host in the backend configuration\n\nUnderlying error: "
                ++ e)))
  ]

  -- The loop over the sockets, of what was tried so far.
  unfoldable pub try_sockets : List Text → List (Text × Text) → Result Text C
  unfolding fall_back contains
  try_sockets tried [] = fall_back tried
  try_sockets tried ((name, path) ∷ rest) =
      let skipped = try_sockets tried rest in
      elim (host.connect_with_socket path) as (λ _. Result Text C) [
        | err e ↦
            let failed =
              try_sockets
                (tried
                  ++ ((path ++ (codes " (" ++ (name ++ (codes ") - connection failed: " ++ e))))
                      ∷ []))
                rest in
            if (is_empty path || contains (codes "//") path) || not (host.exists path)
            then skipped
            else failed
        | ok c ↦
            let silent =
              try_sockets
                (tried
                  ++ ((path
                        ++ (codes " ("
                            ++ (name ++ codes ") - socket exists but daemon not responding")))
                      ∷ []))
                rest in
            if (is_empty path || contains (codes "//") path) || not (host.exists path)
            then skipped
            else if answers (host.ping c)
            then ok c
            else silent
      ]

  unfoldable pub connect_with_defaults : Result Text C
  unfolding try_sockets socket_paths
  connect_with_defaults = try_sockets [] socket_paths

  unfoldable pub choose_client : Option Text → Option Text → Result Text C
  unfolding connect_to_host connect_with_defaults with_error
  choose_client (some address) variable =
      with_error (codes "Failed to connect to Docker at '" ++ (address ++ codes "': "))
        (codes ". Ensure Docker is running and the socket path is correct.")
        (connect_to_host address)
  choose_client none (some address) =
      with_error (codes "Failed to connect to Docker via DOCKER_HOST='" ++ (address ++ codes "': "))
        (codes ". Ensure Docker is running and accessible.") (connect_to_host address)
  choose_client none none = connect_with_defaults

  unfoldable pub verified : C → Result Text (Unit {0}) → Result Text C
  verified c (ok _) = ok c
  verified c (err e) = err (
      codes "Docker daemon is not responding: "
      ++ (e ++ codes ". Ensure Docker Desktop, Colima, or dockerd is running."))

  -- `DockerManager::new`
  unfoldable pub new_manager : Option Text → Result Text C
  unfolding choose_client verified
  new_manager docker_host = elim (choose_client docker_host (host.var (codes "DOCKER_HOST"))) [
    | err e ↦ err e
    | ok c ↦ verified c (host.ping c)
  ]
