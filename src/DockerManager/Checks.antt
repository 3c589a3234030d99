-- ===== src/DockerManager/Checks.antt =====
-- What the Docker manager guarantees of the daemon, and of the containers that it starts.
use spawngate.Base.{
  ℕ, ◌≡◌, ◌≢◌, refl, Option, none, some, [], ◌∷◌, Result, ok, err, arith, inl, inr, subst, ap, sym,
  ◌∙◌, ◌++◌, map, unwrap_or, Option-cases, Result-cases,
}
use spawngate.Base.Text.{Text, codes, replace}
use spawngate.Base.Integer.{ℤ}
use spawngate.Base.Number.{to_text}
use spawngate.Config.{BackendConfig}
use spawngate.Process.Launch.{ready_url}
use spawngate.DockerManager.Client.{DockerError, ContainerConfig, Client}
use spawngate.DockerManager.Connect.{Host, new_manager, choose_client, verified}
use spawngate.DockerManager.Memory.{Floats, parse_memory_limit, parse_cpus}
use spawngate.DockerManager.Pull.{pull_image_if_needed}
use spawngate.DockerManager.Container.{
  container_name_of, container_config, create_and_start, start_container, start_created,
  container_env, port_key, limit_of, with_limits,
}

verified-ping :
    {C : Type 0} (host : Host C) (d c : C) (r : Result Text (Unit {0}))
    → host.ping d ≡ r
    → verified host d r ≡ ok c
    → host.ping c ≡ ok tt
unfolding verified
verified-ping host d c (ok u) p e = subst (λ x. host.ping x ≡ ok tt) (ground arith) p
verified-ping host d c (err x) p e = cc

-- A manager that was made has a daemon that answers, wherever its address came from.
pub new_manager-ping :
    {C : Type 0} (host : Host C) (docker_host : Option Text) (c : C)
    → new_manager host docker_host ≡ ok c
    → host.ping c ≡ ok tt
unfolding new_manager
new_manager-ping host docker_host c e =
    elim (Result-cases (choose_client host docker_host (host.var (codes "DOCKER_HOST")))) [
      | inr (x, f) ↦ absurd (ground (arith, f))
      | inl (d, f) ↦ verified-ping host d c (host.ping d) refl (rw (new_manager, f) at e)
    ]

-- The container has the backend's name, or `spawngate-` and the hostname with `-` for each dot. It sees
-- the configured variables, and after them its port in `PORT` and the manager's ready URL for the backend in
-- `SERVERLESS_PROXY_READY_URL`; and its port is published, on the loopback address alone.
pub record Exposes (config : BackendConfig) (h url : Text) (c : ContainerConfig) : Type 0 where
  pub name : c.name ≡ unwrap_or config.container_name (codes "spawngate-" ++ replace b'.' b'-' h)
  pub env :
      c.env
      ≡ map (λ entry. entry.0 ++ (codes "=" ++ entry.1)) config.env
        ++ ((codes "PORT=" ++ to_text config.port)
            ∷ (codes "SERVERLESS_PROXY_READY_URL=" ++ (url ++ (codes "/ready/" ++ h)))
            ∷ [])
  pub ports :
      c.port_bindings
      ≡ (
        to_text config.port ++ codes "/tcp",
        record { host_ip = codes "127.0.0.1"; host_port = to_text config.port },
      )
        ∷ []

with_limits-Exposes :
    (config : BackendConfig) (image h url : Text) (m n : Option ℤ) (c : ContainerConfig)
    → with_limits config image h url m n ≡ c
    → (c.image ≡ image) × Exposes config h url c
unfolding with_limits container_env container_name_of port_key ready_url
with_limits-Exposes config image h url m n c e =
    subst (λ x. (x.image ≡ image) × Exposes config h url x) e
      (refl, record { name = refl; env = refl; ports = refl })

container_config-Exposes :
    (fl : Floats) (config : BackendConfig) (image h url : Text) (c : ContainerConfig)
    → container_config fl config image h url ≡ ok c
    → (c.image ≡ image) × Exposes config h url c
unfolding container_config
container_config-Exposes fl config image h url c e =
    elim (Result-cases (limit_of (parse_memory_limit fl) config.memory)) [
      | inr (x, f) ↦ absurd (ground (arith, f))
      | inl (m, f) ↦ elim (Result-cases (limit_of (parse_cpus fl) config.cpus)) [
        | inr (x, g) ↦ absurd (ground (arith, f, g))
        | inl (n, g) ↦ with_limits-Exposes config image h url m n c (ground (arith, f, g))
      ]
    ]

module _ {D : Type 0} (fl : Floats) (client : Client D) where
  -- The container `id` was created with the configuration `c` in the daemon `before`, and started.
  pub record Launched (c : ContainerConfig) (id : Text) (before after : D) : Type 0 where
    pub created : (client.create_container c before).1 ≡ ok id
    pub started : client.start_container id (client.create_container c before).0 ≡ (after, ok tt)

  start_created-parts :
      (c : ContainerConfig) (port : ℕ) (id : Text) (r : D × Result DockerError Text)
      → (start_created fl client c port r).1 ≡ ok id
      → (r.1 ≡ ok id)
        × (client.start_container id r.0 ≡ ((start_created fl client c port r).0, ok tt))
  unfolding start_created
  start_created-parts c port id (d, err x) e = cc
  start_created-parts c port id (d, ok x) e = elim (Result-cases (client.start_container x d).1) [
    | inl (u, f) ↦
        let same : x ≡ id = ground (arith, f) in
        subst
          (λ y.
            (◌≡◌ {A = Result DockerError Text} (ok x) (ok y))
            × (client.start_container y d ≡ ((client.start_container x d).0, ok tt)))
          same (refl, ap (λ y. ((client.start_container x d).0, y)) f)
    | inr (y, f) ↦ absurd (ground (arith, f))
  ]

  create_and_start-Launched :
      (config : BackendConfig) (image h url id : Text) (d : D)
      → (create_and_start fl client config image h url d).1 ≡ ok id
      → (c : ContainerConfig) × (container_config fl config image h url ≡ ok c)
        × Launched c id
            (client.remove_container (container_name_of config h) d).0
            (create_and_start fl client config image h url d).0
  unfolding create_and_start
  create_and_start-Launched config image h url id d e =
      elim (Result-cases (container_config fl config image h url)) [
        | inr (x, f) ↦ absurd (ground (arith, f))
        | inl (c, f) ↦
            let (created, started) =
              start_created-parts c config.port id _ (rw (create_and_start, f) at e) in
            (c, f, record { created = created; started = ground (arith, started, f) })
      ]

  start_container-create_and_start :
      (config : BackendConfig) (h url image : Text) (d : D) {u : Unit {0}}
      → config.image ≡ some image
      → (pull_image_if_needed client image config.pull_policy d).1 ≡ ok u
      → start_container fl client config h url d
        ≡ create_and_start fl client config image h url
            (pull_image_if_needed client image config.pull_policy d).0
  unfolding start_container container_name_of container_config
  start_container-create_and_start config h url image d s f = rw (start_container, s, f) refl

  no_image :
      (config : BackendConfig) (h url : Text) (d : D) {id : Text}
      → config.image ≡ none
      → (start_container fl client config h url d).1 ≢ ok id
  unfolding start_container
  no_image config h url d n e = ground (arith, n)

  no_pull :
      (config : BackendConfig) (h url image : Text) (d : D) {id x : Text}
      → config.image ≡ some image
      → (pull_image_if_needed client image config.pull_policy d).1 ≡ err x
      → (start_container fl client config h url d).1 ≢ ok id
  unfolding start_container
  no_pull config h url image d s f e = ground (arith, s, f)

  -- The daemon after a container with the backend's name was removed, if there was one, which comes
  -- after the pull of the image.
  abbrev pub removed : BackendConfig → Text → Text → D → D
  removed config h image d =
      (client.remove_container
        (unwrap_or config.container_name (codes "spawngate-" ++ replace b'.' b'-' h))
        (pull_image_if_needed client image config.pull_policy d).0).0

  -- A container that `start_container` reports was created with the id that it reports and started by
  -- it, of the backend's image and under its name; it is told its port and the ready URL after the
  -- configured variables, and its port is published on the loopback address alone.
  pub start_container-Launched :
      (config : BackendConfig) (h url id : Text) (d : D)
      → (start_container fl client config h url d).1 ≡ ok id
      → (c : ContainerConfig) × (config.image ≡ some c.image)
        × Exposes config h url c
        × Launched c id (removed config h c.image d) (start_container fl client config h url d).0
  unfolding container_name_of
  start_container-Launched config h url id d e = elim (Option-cases config.image) [
    | inl n ↦ absurd (no_image config h url d n e)
    | inr (image, s) ↦
        elim (Result-cases (pull_image_if_needed client image config.pull_policy d).1) [
          | inr (x, f) ↦ absurd (no_pull config h url image d s f e)
          | inl (u, f) ↦
              let same = start_container-create_and_start config h url image d s f in
              let (c, g, launched) =
                create_and_start-Launched config image h url id
                  (pull_image_if_needed client image config.pull_policy d).0 (rw same at e) in
              let (im, exposes) = container_config-Exposes fl config image h url c g in
              (
                c,
                s ∙ ap (λ x. some x) (sym im),
                exposes,
                subst
                    (λ x.
                      Launched c id (removed config h x d)
                        (start_container fl client config h url d).0)
                    (sym im) (rw same launched),
              )
        ]
  ]
