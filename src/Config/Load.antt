-- ===== src/Config/Load.antt =====
-- src/config.rs: `Config` and its validation. The TOML text is read by the `toml` crate, whose
-- result is a parameter of `load`.
use spawngate.Base.{List, [], ◌∷◌, ◌++◌, Result, ok, err, ◌>>=◌, ◌>>◌}
use spawngate.Base.{if◌then◌else◌, not}
use spawngate.Base.Text.{Text, codes}
use spawngate.Base.Lists.{is_empty}
use spawngate.Base.Dict.{Dict}
use spawngate.Config.Defaults.{BackendDefaults}
use spawngate.Config.Backend.{BackendConfig, validate_backend}
use spawngate.Config.Server.{ServerConfig}

pub record Config : Type 0 where
  pub server : ServerConfig
  pub defaults : BackendDefaults
  pub backends : Dict BackendConfig

-- `Vec::join`
unfoldable pub join : Text → List Text → Text
join sep [] = []
join sep (x ∷ []) = x
join sep (x ∷ y ∷ ys) = x ++ (sep ++ join sep (y ∷ ys))

push_error : Result Text (Unit {0}) → List Text → List Text
push_error (ok _) errors = errors
push_error (err e) errors = e ∷ errors

-- The loop of `Config::validate`: an error for each backend that does not validate.
unfoldable pub backend_errors : Dict BackendConfig → List Text
unfolding push_error
backend_errors [] = []
backend_errors ((hostname, backend) ∷ rest) =
    push_error (validate_backend backend hostname) (backend_errors rest)

-- `Config::validate`
unfoldable pub validate : Config → Result Text (Unit {0})
validate config =
    let errors = backend_errors config.backends in
    if not (is_empty errors)
    then err (codes "Configuration errors:\n  - " ++ join (codes "\n  - ") errors)
    else ok tt

module _ (from_str : Text → Result Text Config) where
  -- `Config::load`, of the content of the file or the error of reading it.
  unfoldable pub load : Result Text Text → Result Text Config
  load file = do content ← file; config ← from_str content; validate config; ok config
