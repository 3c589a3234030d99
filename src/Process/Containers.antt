-- ===== src/Process/Containers.antt =====
-- Starting backends through the Docker manager of src/docker.rs.
use spawngate.Base.{
  ℕ, ◌≡◌, sym, ap, ◌∙◌, subst, Option, some, List, Result, ok, err, arith, Option-cases,
  Result-cases, inl, inr,
}
use spawngate.Base.Text.{Text}
use spawngate.Config.{docker, BackendConfig, BackendDefaults}
use spawngate.Process.State.{Docker, ProcessHandle, container, ProcessManager, get_config}
use spawngate.Process.Steps.{Op}
use spawngate.Process.Launch.{Command, Launcher, get_docker, start_in, start_docker_backend, launch}
use spawngate.Process.Start.{polled, start_backend}
use spawngate.Process.Starting.{Inserted, start_backend-Inserted}
use spawngate.DockerManager.Client.{ContainerConfig, Client}
use spawngate.DockerManager.Memory.{Floats}
use spawngate.DockerManager.Container as Manager
use spawngate.DockerManager.Checks.{Exposes, Launched, removed, start_container-Launched}

module _ (os : Launcher) where
  start_in-ok :
      (r : Result Text Docker) (m : ProcessManager) (h image : Text) (config : BackendConfig)
      (handle : ProcessHandle)
      → start_in os r m h config image ≡ ok handle
      → (id : Text) × (d : Docker) × (handle ≡ container id d)
        × (os.start_container d config h m.admin_url ≡ ok id)
  unfolding start_in
  start_in-ok (err e) m h image config handle f = absurd (ground (arith, f))
  start_in-ok (ok d) m h image config handle f =
      elim (Result-cases (os.start_container d config h m.admin_url)) [
        | inl (id, e) ↦ (id, d, ground (arith, e, f), e)
        | inr (x, e) ↦ absurd (ground (arith, e, f))
      ]

  get_docker-admin_url :
      (docker_host : Option Text) (m : ProcessManager)
      → (get_docker os docker_host m).0.admin_url ≡ m.admin_url
  unfolding get_docker
  get_docker-admin_url docker_host m = ground arith

  start_docker_backend-ok :
      (h : Text) (config : BackendConfig) (m : ProcessManager) (handle : ProcessHandle)
      → (start_docker_backend os h config m).1 ≡ ok handle
      → (id : Text) × (d : Docker) × (handle ≡ container id d)
        × (os.start_container d config h m.admin_url ≡ ok id)
  unfolding start_docker_backend
  start_docker_backend-ok h config m handle e = elim (Option-cases config.image) [
    | inl n ↦ absurd (ground (arith, n, e))
    | inr (image, s) ↦
        let (id, d, f, g) =
          start_in-ok (get_docker os config.docker_host m).1 (get_docker os config.docker_host m).0
            h image config handle (rw (start_docker_backend, s) at e) in
        (
          id,
          d,
          f,
          subst (λ url. os.start_container d config h url ≡ ok id)
              (get_docker-admin_url config.docker_host m) g,
        )
  ]

-- The operating system, with the Docker manager of src/docker.rs on a daemon that is in a state `d` when
-- it is asked to start a container.
abbrev pub with_manager :
    {D : Type 0}
    → (Command → Result Text ℕ)
    → (Option Text → Result Text (Unit {0}))
    → Floats
    → Client D
    → D
    → Launcher
with_manager spawn connect fl client d = record {
  spawn = spawn;
  connect = connect;
  start_container = λ manager config h url. (Manager.start_container fl client config h url d).1;
}

module _ {D : Type 0} (spawn : Command → Result Text ℕ)
    (connect : Option Text → Result Text (Unit {0})) (fl : Floats) (client : Client D) (d : D) where
  -- The container of a backend, as the daemon has it.
  pub record Runs (h url : Text) (config : BackendConfig) (handle : ProcessHandle) : Type 0 where
    pub id : Text
    pub manager : Docker
    pub is_container : handle ≡ container id manager
    pub created : ContainerConfig
    pub image : config.image ≡ some created.image
    pub exposes : Exposes config h url created
    pub launched :
        Launched fl client created id
          (removed fl client config h created.image d)
          (Manager.start_container fl client config h url d).0

  launch-Runs :
      (h : Text) (config : BackendConfig) (m : ProcessManager) (handle : ProcessHandle)
      → config.backend_type ≡ docker
      → (launch (with_manager spawn connect fl client d) config.backend_type h config m).1
        ≡ ok handle
      → Runs h m.admin_url config handle
  unfolding launch
  launch-Runs h config m handle t e =
      let (id, k, f, g) =
        start_docker_backend-ok (with_manager spawn connect fl client d) h config m handle (
          sym (ap (λ x. (launch (with_manager spawn connect fl client d) x h config m).1) t) ∙ e) in
      let (c, image, exposes, launched) =
        start_container-Launched fl client config h m.admin_url id d g in
      record {
        id = id;
        manager = k;
        is_container = f;
        created = c;
        image = image;
        exposes = exposes;
        launched = launched;
      }

  -- A start of a Docker backend that spawns a health task, with the Docker manager as the one that starts
  -- containers on a daemon in the state `d`: the map holds the id of a container that the daemon created and
  -- started for the backend, after the pull of its image and the removal of what had its name. It is of the
  -- backend's image and under its name, sees the configured variables and after them its port in `PORT`
  -- and the manager's ready URL in `SERVERLESS_PROXY_READY_URL`, and its port is published, on the loopback
  -- address alone.
  pub start_backend-Runs :
      (now : ℕ) (others : List Op) (h : Text) (m : ProcessManager) (config : BackendConfig)
      {c : BackendConfig} {s : BackendDefaults}
      → get_config m h ≡ some config
      → config.backend_type ≡ docker
      → (start_backend (with_manager spawn connect fl client d) now others h m).1 ≡ ok (polled c s)
      → (handle : ProcessHandle) × Runs h m.admin_url config handle
        × Inserted h handle
            (start_backend (with_manager spawn connect fl client d) now others h m).0
  start_backend-Runs now others h m config g t e =
      let (config', handle, g', not_starting, not_ready, l, inserted) =
        start_backend-Inserted (with_manager spawn connect fl client d) now others h m e in
      let same : config' ≡ config = ground (arith, g, g') in
      (
        handle,
        launch-Runs h config m handle t (
            subst
              (λ x.
                (launch (with_manager spawn connect fl client d) x.backend_type h x m).1
                ≡ ok handle)
              same l),
        inserted,
      )
