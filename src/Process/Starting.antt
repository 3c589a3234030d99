-- ===== src/Process/Starting.antt =====
-- What `start_backend` and the two ways to launch a backend guarantee.
use spawngate.Base.{
  ℕ, ◌≡◌, ◌≢◌, refl, false, Option, none, some, List, [], ◌∷◌, Result, ok, err, arith,
  if◌then◌else◌, Option-cases, Bool-cases, Result-cases, inl, inr,
}
use spawngate.Base.Text.{Text, codes, text_eq, text_eq_iff}
use spawngate.Base.Number.{to_text}
use spawngate.Base.Dict.{Dict, get, insert, get-insert, get-insert_self, Unique}
use spawngate.Config.{BackendConfig, BackendDefaults, local}
use spawngate.Config.Validity.{HasTarget}
use spawngate.Process.State.{
  starting, ready, is_state, Docker, ProcessHandle, container, ProcessManager, get_config,
  get_state, get_in_flight,
}
use spawngate.Process.Ops.{insert_process}
use spawngate.Process.Steps.{Op, run}
use spawngate.Process.Launch.{
  Launcher, build_command, set_env, ready_url, start_local_backend, start_docker_backend, launch,
}
use spawngate.Process.Start.{polled, is_running, finish_start, start_backend}

-- The handle that the map holds for `h`.
abbrev pub handle_of : Text → ProcessManager → Option ProcessHandle
handle_of h m = elim (get h m.processes) [ none ↦ none | some p ↦ some p.handle ]

pub record Inserted (h : Text) (handle : ProcessHandle) (m : ProcessManager) : Type 0 where
  pub state : get_state m h ≡ starting
  pub idle : get_in_flight m h ≡ 0
  pub held : handle_of h m ≡ some handle

insert_process-Inserted :
    (now : ℕ) (h : Text) (handle : ProcessHandle) (m : ProcessManager)
    → Inserted h handle (insert_process now h handle m)
unfolding insert_process get_state get_in_flight
insert_process-Inserted now h handle m = record {
  state = grind (arith, get-insert_self);
  idle = grind (arith, get-insert_self);
  held = grind (arith, get-insert_self);
}

finish_start-Inserted :
    (now : ℕ) (others : List Op) (h : Text) (c : BackendConfig) (m : ProcessManager)
    (r : Result Text ProcessHandle) {c' : BackendConfig} {d : BackendDefaults}
    → (finish_start now others h c (m, r)).1 ≡ ok (polled c' d)
    → (handle : ProcessHandle) × (r ≡ ok handle)
      × Inserted h handle (finish_start now others h c (m, r)).0
unfolding finish_start
finish_start-Inserted now others h c m (ok handle) e =
    (handle, refl, insert_process-Inserted now h handle (run m others))
finish_start-Inserted now others h c m (err x) e = cc

is_running-false :
    (m : ProcessManager) (h : Text)
    → is_running m h ≡ false
    → (get_state m h ≢ starting) × (get_state m h ≢ ready)
unfolding is_running is_state
is_running-false m h r = (λ e. ground (arith, r, e), λ e. ground (arith, r, e))

module _ (os : Launcher) (now : ℕ) (others : List Op) (h : Text) (m : ProcessManager) where
  pub start_backend-finish_start :
      (c : BackendConfig)
      → get_config m h ≡ some c
      → is_running m h ≡ false
      → start_backend os now others h m
        ≡ finish_start now others h c (launch os c.backend_type h c m)
  unfolding start_backend
  start_backend-finish_start c g r = rw (start_backend, g, r)

  -- A start that spawns a health task was of a configured backend that was neither starting nor
  -- ready when it was checked. It leaves the backend `Starting`, with nothing in flight, and with
  -- the handle that was launched, whatever other tasks put in the map since the check.
  pub start_backend-Inserted :
      {c : BackendConfig} {d : BackendDefaults}
      → (start_backend os now others h m).1 ≡ ok (polled c d)
      → (config : BackendConfig) × (handle : ProcessHandle) × (get_config m h ≡ some config)
        × (get_state m h ≢ starting)
        × (get_state m h ≢ ready)
        × ((launch os config.backend_type h config m).1 ≡ ok handle)
        × Inserted h handle (start_backend os now others h m).0
  unfolding start_backend
  start_backend-Inserted e = elim (Option-cases (get_config m h)) [
    | inl g ↦ absurd (ground (arith, g))
    | inr (c, g) ↦ elim (Bool-cases (is_running m h)) [
      | inl r ↦ absurd (ground (arith, g, r))
      | inr r ↦
          let f = start_backend-finish_start c g r in
          let (handle, l, i) = finish_start-Inserted now others h c _ _ (rw f at e) in
          let (not_starting, not_ready) = is_running-false m h r in
          (c, handle, g, not_starting, not_ready, l, rw f i)
    ]
  ]

module _ (os : Launcher) (h : Text) (m : ProcessManager) where
  -- A local backend that validated fails to start only where its command cannot be spawned.
  pub start_local_backend-spawn :
      (c : BackendConfig) {e : Text}
      → HasTarget local c
      → start_local_backend os m h c ≡ err e
      → (command : Text) × (c.command ≡ some command)
        × (os.spawn (build_command m.admin_url h command c) ≡ err e)
  unfolding start_local_backend
  start_local_backend-spawn c t f = elim (Option-cases c.command) [
    | inl n ↦ absurd (ground (arith, n))
    | inr (command, s) ↦ (
      command,
      s,
      elim (Result-cases (os.spawn (build_command m.admin_url h command c))) [
        | inl (pid, x) ↦ absurd (ground (arith, s, x))
        | inr (y, x) ↦ ground (arith, s, x)
      ],
    )
  ]

  -- Once the manager holds a Docker client, every container is started with it, whatever
  -- `docker_host` the backend's configuration names.
  pub start_docker_backend-endpoint :
      (c : BackendConfig) (d d' : Docker) (id : Text)
      → m.docker ≡ some d
      → (start_docker_backend os h c m).1 ≡ ok (container id d')
      → d' ≡ d
  unfolding start_docker_backend
  start_docker_backend-endpoint c d d' id held e = ground arith

get-set_env :
    (k : Text) (env base : Dict Text)
    → Unique env
    → get k (set_env env base) ≡ elim (get k env) [ none ↦ get k base | some v ↦ some v ]
unfolding set_env get
get-set_env k [] base u = refl
get-set_env k ((j, v) ∷ env) base (e, u) =
    ground (arith, get-set_env k env (insert j v base) u, get-insert j k v base, text_eq_iff j k, e)

-- A local process sees its configured variables, but for `PORT`, which is its port in decimal, and
-- the ready URL, which is the manager's: a configuration cannot set these two.
pub get-build_command :
    (url h command : Text) (c : BackendConfig) (k : Text)
    → Unique c.env
    → get k (build_command url h command c).env ≡ (
        if text_eq (codes "SERVERLESS_PROXY_READY_URL") k
        then some (ready_url url h)
        else if text_eq (codes "PORT") k
        then some (to_text c.port)
        else get k c.env)
unfolding build_command get
get-build_command url h command c k u = simp (get-insert, get-set_env k c.env [] u) (ground arith)
