-- ===== src/DockerManager/Client.antt =====
-- What src/docker.rs uses of the client library for the Docker daemon. The daemon is a state `D` that
-- the calls read and change.
use spawngate.Base.{ℕ, Bool, Option, List, Result}
use spawngate.Base.Text.{Text}
use spawngate.Base.Dict.{Dict}
use spawngate.Base.Integer.{ℤ}

-- The status is that of an answer of the daemon; other errors have none.
pub record DockerError : Type 0 where
  pub status : Option ℕ
  pub message : Text

-- An item of the stream of a pull.
pub data PullEvent : Type 0 where
  progress : (status error : Option Text) → PullEvent
  failed : DockerError → PullEvent

pub record PortBinding : Type 0 where
  pub host_ip : Text
  pub host_port : Text

-- `CreateContainerOptions`, `Config` and `HostConfig`, as far as they are set.
pub record ContainerConfig : Type 0 where
  pub name : Text
  pub image : Text
  pub cmd : Option (List Text)
  pub env : List Text
  pub exposed_ports : List Text
  pub port_bindings : Dict PortBinding
  pub network_mode : Option Text
  pub memory : Option ℤ
  pub nano_cpus : Option ℤ

pub record Client (D : Type 0) : Type 0 where
  -- whether the image is there
  pub inspect_image : Text → D → Bool
  pub create_image : Text → D → D × List PullEvent
  -- the container's id
  pub create_container : ContainerConfig → D → D × Result DockerError Text
  pub start_container : Text → D → D × Result DockerError (Unit {0})
  -- with the seconds to wait
  pub stop_container : Text → ℕ → D → D × Result DockerError (Unit {0})
  pub kill_container : Text → D → D × Result DockerError (Unit {0})
  -- by force
  pub remove_container : Text → D → D × Result DockerError (Unit {0})
  -- the field `state.running` of the answer
  pub inspect_container : Text → D → Result DockerError (Option Bool)
