-- ===== src/DockerManager/Ending.antt =====
-- src/docker.rs: how a container is stopped, killed and removed, and whether it runs.
use spawngate.Base.{
  ℕ, ◌/◌, Bool, false, Option, none, some, ◌++◌, Result, ok, err, if◌then◌else◌, ◌==◌, ◌||◌,
  unwrap_or,
}
use spawngate.Base.Text.{Text, codes}
use spawngate.Config.{Duration}
use spawngate.DockerManager.Client.{DockerError, Client}

has_status : ℕ → DockerError → Bool
has_status code e = elim e.status [ none ↦ false | some s ↦ s == code ]

stop_result : Result DockerError (Unit {0}) → Result Text (Unit {0})
unfolding has_status
stop_result (ok _) = ok tt
stop_result (err e) =
    if has_status 304 e || has_status 404 e
    then ok tt
    else err (codes "Failed to stop container: " ++ e.message)

kill_result : Result DockerError (Unit {0}) → Result Text (Unit {0})
unfolding has_status
kill_result (ok _) = ok tt
kill_result (err e) =
    if has_status 404 e || has_status 409 e
    then ok tt
    else err (codes "Failed to kill container: " ++ e.message)

-- An error of removing is logged only.
remove_result : Result DockerError (Unit {0}) → Result Text (Unit {0})
remove_result (ok _) = ok tt
remove_result (err e) = ok tt

running_field : Result DockerError (Option Bool) → Bool
running_field (ok running) = unwrap_or running false
running_field (err e) = false

module _ {D : Type 0} (client : Client D) where
  unfoldable pub stop_container : Text → Duration → D → D × Result Text (Unit {0})
  unfolding stop_result
  stop_container id timeout d =
      let (d', r) = client.stop_container id (timeout / 1000) d in (d', stop_result r)

  unfoldable pub kill_container : Text → D → D × Result Text (Unit {0})
  unfolding kill_result
  kill_container id d = let (d', r) = client.kill_container id d in (d', kill_result r)

  unfoldable pub remove_container : Text → D → D × Result Text (Unit {0})
  unfolding remove_result
  remove_container id d = let (d', r) = client.remove_container id d in (d', remove_result r)

  unfoldable pub is_container_running : Text → D → Bool
  unfolding running_field
  is_container_running id d = running_field (client.inspect_container id d)

  kill_if : Text → D × Result Text (Unit {0}) → D
  unfolding kill_container
  kill_if id (d, ok _) = d
  kill_if id (d, err e) = (kill_container id d).0

  -- src/process.rs: `stop_docker_container`.
  unfoldable pub end_container : Text → Duration → D → D
  unfolding stop_container kill_if remove_container
  end_container id grace_period d =
      (remove_container id (kill_if id (stop_container id grace_period d))).0
