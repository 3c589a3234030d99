-- ===== src/Process/Reload.antt =====
-- src/process.rs: `apply_config` and `reload_config`.
use spawngate.Base.{not, Option, none, some, List, [], Result, ok, err}
use spawngate.Base.Text.{Text, includes}
use spawngate.Base.Lists.{keep}
use spawngate.Base.Dict.{Dict, keys, contains_key}
use spawngate.Config.{BackendConfig, BackendDefaults, Config, load}
use spawngate.Process.State.{ProcessManager}
use spawngate.Process.Stop.{Action, Weather}
use spawngate.Process.Cleanup.{stop_each}

pub record ReloadResult : Type 0 where
  pub added : List Text
  pub removed : List Text
  pub updated : List Text

-- The backends in the current configuration and not in the new one.
unfoldable pub to_remove : Dict BackendConfig → Dict BackendConfig → List Text
unfolding contains_key
to_remove current new_backends =
    keep (λ hostname. not (contains_key hostname new_backends)) (keys current)

unfoldable pub to_add : Dict BackendConfig → Dict BackendConfig → List Text
unfolding includes
to_add current new_backends =
    keep (λ hostname. not (includes (keys current) hostname)) (keys new_backends)

unfoldable pub to_update : Dict BackendConfig → Dict BackendConfig → List Text
unfolding includes
to_update current new_backends =
    keep (λ hostname. includes (keys current) hostname) (keys new_backends)

-- Each stop has a weather of its own.
unfoldable pub apply_config :
    (Text → Weather)
    → Dict BackendConfig
    → BackendDefaults
    → ProcessManager
    → Option (ProcessManager × List Action × ReloadResult)
unfolding to_remove to_add to_update stop_each
apply_config env new_backends new_defaults m =
    elim (stop_each env (to_remove m.configs new_backends) m) [
      | none ↦ none
      | some (m', acts) ↦ some (
        record m' { configs = new_backends; defaults = new_defaults },
        acts,
        record {
          added = to_add m.configs new_backends;
          removed = to_remove m.configs new_backends;
          updated = to_update m.configs new_backends;
        },
      )
    ]

-- A file that does not load changes nothing.
unfoldable pub reload_config :
    (Text → Result Text Config)
    → (Text → Weather)
    → Result Text Text
    → ProcessManager
    → Option (ProcessManager × List Action × Result Text ReloadResult)
unfolding apply_config load
reload_config from_str env file m = elim (load from_str file) [
  | err e ↦ some (m, [], err e)
  | ok config ↦ elim (apply_config env config.backends config.defaults m) [
    | none ↦ none
    | some (m', acts, r) ↦ some (m', acts, ok r)
  ]
]
