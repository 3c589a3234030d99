-- ===== src/DockerManager/Container.antt =====
-- src/docker.rs: `start_container`.
use spawngate.Base.{
  ℕ, Bool, ◌&&◌, ◌||◌, Option, none, some, List, [], ◌∷◌, ◌++◌, map, Result, ok, err, ◌>>=◌,
  if◌then◌else◌, unwrap_or,
}
use spawngate.Base.Text.{Text, codes, contains, replace}
use spawngate.Base.Lists.{is_empty}
use spawngate.Base.Number.{to_text}
use spawngate.Base.Integer.{ℤ}
use spawngate.Config.{BackendConfig}
use spawngate.Process.Launch.{ready_url}
use spawngate.DockerManager.Client.{DockerError, ContainerConfig, Client}
use spawngate.DockerManager.Memory.{Floats, parse_memory_limit, parse_cpus}
use spawngate.DockerManager.Pull.{pull_image_if_needed}

unfoldable pub container_name_of : BackendConfig → Text → Text
unfolding replace
container_name_of config hostname =
    unwrap_or config.container_name (codes "spawngate-" ++ replace b'.' b'-' hostname)

unfoldable pub container_env : BackendConfig → Text → Text → List Text
unfolding ready_url to_text
container_env config hostname admin_url =
    map (λ entry. entry.0 ++ (codes "=" ++ entry.1)) config.env
    ++ ((codes "PORT=" ++ to_text config.port)
        ∷ (codes "SERVERLESS_PROXY_READY_URL=" ++ ready_url admin_url hostname)
        ∷ [])

unfoldable pub port_key : BackendConfig → Text
unfolding to_text
port_key config = to_text config.port ++ codes "/tcp"

-- A limit that is given is read.
pub limit_of : (Text → Result Text ℤ) → Option Text → Result Text (Option ℤ)
limit_of parse none = ok none
limit_of parse (some t) = elim (parse t) [ err e ↦ err e | ok n ↦ ok (some n) ]

-- The options and the configuration of the container.
unfoldable pub with_limits :
    BackendConfig → Text → Text → Text → Option ℤ → Option ℤ → ContainerConfig
unfolding container_name_of container_env port_key
with_limits config image hostname admin_url memory nano_cpus = record {
  name = container_name_of config hostname;
  image = image;
  cmd = if is_empty config.args then none else some config.args;
  env = container_env config hostname admin_url;
  exposed_ports = port_key config ∷ [];
  port_bindings =
      (port_key config, record { host_ip = codes "127.0.0.1"; host_port = to_text config.port })
      ∷ [];
  network_mode = config.network;
  memory = memory;
  nano_cpus = nano_cpus;
}

unfoldable pub container_config :
    Floats → BackendConfig → Text → Text → Text → Result Text ContainerConfig
unfolding limit_of with_limits
container_config fl config image hostname admin_url = do
  memory ← limit_of (parse_memory_limit fl) config.memory
  nano_cpus ← limit_of (parse_cpus fl) config.cpus
  ok (with_limits config image hostname admin_url memory nano_cpus)

port_taken : Text → Bool
unfolding contains
port_taken message =
    contains (codes "port is already allocated") message
    || contains (codes "address already in use") message

unfoldable pub create_error : ContainerConfig → ℕ → DockerError → Text
unfolding port_taken contains
create_error c port e =
    if port_taken e.message
    then codes "Port "
      ++ (to_text port
          ++ codes
              " is already in use. Another container or process is using this port. Stop the conflicting service or use a different port.")
    else if contains (codes "Conflict") e.message && contains (codes "name") e.message
    then codes "Container name '"
      ++ (c.name
          ++ (codes
                "' already exists. This shouldn't happen as we remove existing containers. Try: docker rm -f "
              ++ c.name))
    else codes "Failed to create container '"
      ++ (c.name ++ (codes "' from image '" ++ (c.image ++ (codes "': " ++ e.message))))

unfoldable pub start_error : ContainerConfig → ℕ → Text → DockerError → Text
unfolding port_taken contains
start_error c port id e =
    if port_taken e.message
    then codes "Cannot start container: port "
      ++ (to_text port
          ++ codes " is already in use. Stop the conflicting service or use a different port.")
    else if contains (codes "OCI runtime") e.message
        || contains (codes "executable file not found") e.message
    then codes "Container failed to start: the image '"
      ++ (c.image ++ (codes "' may have an invalid entrypoint or command. Error: " ++ e.message))
    else if contains (codes "no such file") e.message || contains (codes "not found") e.message
    then codes "Container failed to start: command or entrypoint not found in image '"
      ++ (c.image ++ (codes "'. Check that the image is built correctly. Error: " ++ e.message))
    else codes "Failed to start container '"
      ++ (c.name ++ (codes "' (id: " ++ (id ++ (codes "): " ++ e.message))))

module _ {D : Type 0} (fl : Floats) (client : Client D) where
  unfoldable pub start_created :
      ContainerConfig → ℕ → D × Result DockerError Text → D × Result Text Text
  unfolding create_error start_error
  start_created c port (d, err e) = (d, err (create_error c port e))
  start_created c port (d, ok id) =
      let (d', r) = client.start_container id d in
      (d', elim r [ ok _ ↦ ok id | err e ↦ err (start_error c port id e) ])

  -- Creates the container and starts it, in the place of one that has its name.
  unfoldable pub create_and_start : BackendConfig → Text → Text → Text → D → D × Result Text Text
  unfolding start_created
  create_and_start config image hostname admin_url d =
      let removed = (client.remove_container (container_name_of config hostname) d).0 in
      elim (container_config fl config image hostname admin_url) [
        | err e ↦ (removed, err e)
        | ok c ↦ start_created c config.port (client.create_container c removed)
      ]

  after_pull :
      BackendConfig → Text → Text → Text → D × Result Text (Unit {0}) → D × Result Text Text
  unfolding create_and_start
  after_pull config image hostname admin_url (d, err e) = (d, err e)
  after_pull config image hostname admin_url (d, ok _) =
      create_and_start config image hostname admin_url d

  unfoldable pub start_container : BackendConfig → Text → Text → D → D × Result Text Text
  unfolding after_pull
  start_container config hostname admin_url d = elim config.image [
    | none ↦ (d, err (codes "Docker backend requires 'image' field"))
    | some image ↦
        after_pull config image hostname admin_url
          (pull_image_if_needed client image config.pull_policy d)
  ]
