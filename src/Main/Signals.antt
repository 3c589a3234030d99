-- ===== src/Main/Signals.antt =====
-- src/main.rs: what the program does at signals and in time.
use spawngate.Base.{ℕ, Bool, true, false, Option, none, some, List, [], ◌∷◌, ◌++◌, Result, ok, err}
use spawngate.Base.Text.{Text, codes}
use spawngate.Base.Number.{to_text}
use spawngate.Config.{Config}
use spawngate.Process.State.{ProcessManager}
use spawngate.Process.Steps.{Op, run}
use spawngate.Process.Stop.{Weather, Action}
use spawngate.Process.Cleanup.{cleanup_idle_backends, stop_all}
use spawngate.Process.Reload.{reload_config}

-- What ends a wait of the signal loop. At SIGHUP the configuration file is read, with what comes of it.
pub data Signal : Type 0 where
  ctrl_c sigterm : Signal
  sighup : (file : Result Text Text) → Signal

-- A signal, what the other tasks do until it comes, and what the stops of a reload at it meet.
pub record Arrival : Type 0 where
  pub meanwhile : List Op
  pub signal : Signal
  pub weather : Text → Weather

module _ (from_str : Text → Result Text Config) where
  unfoldable pub handle :
      (Text → Weather)
      → Signal
      → (ProcessManager → Option (ProcessManager × List Action))
      → ProcessManager
      → Option (ProcessManager × List Action)
  unfolding reload_config
  handle env ctrl_c loop m = some (m, [])
  handle env sigterm loop m = some (m, [])
  handle env (sighup file) loop m = elim (reload_config from_str env file m) [
    | none ↦ none
    | some (m', acts, result) ↦ elim (loop m') [
      | none ↦ none
      | some (m'', more) ↦ some (m'', acts ++ more)
    ]
  ]

  -- The signal loop, up to the signal that ends it. There is no result if the signals given do not.
  unfoldable pub signal_loop : List Arrival → ProcessManager → Option (ProcessManager × List Action)
  unfolding run handle
  signal_loop [] m = none
  signal_loop (a ∷ rest) m =
      handle a.weather a.signal (λ m'. signal_loop rest m') (run m a.meanwhile)

  -- `main` from the start of the signal loop, and the stop of the backends.
  unfoldable pub serve :
      (Text → Weather) → List Arrival → ProcessManager → Option (ProcessManager × List Action)
  unfolding signal_loop stop_all
  serve env arrivals m = elim (signal_loop arrivals m) [
    | none ↦ none
    | some (m', acts) ↦ elim (stop_all env m') [
      | none ↦ none
      | some (m'', more) ↦ some (m'', acts ++ more)
    ]
  ]

-- What ends a wait of the cleanup loop: ten seconds, with what the stops at it meet, or a change of the shutdown flag.
pub data Tick : Type 0 where
  elapsed : (now : ℕ) → (Text → Weather) → Tick
  shutdown_changed : Bool → Tick

then_tick :
    (ProcessManager → Option (ProcessManager × List Action))
    → Tick
    → ProcessManager
    → Option (ProcessManager × List Action)
unfolding cleanup_idle_backends
then_tick loop (shutdown_changed true) m = some (m, [])
then_tick loop (shutdown_changed false) m = loop m
then_tick loop (elapsed now env) m = elim (cleanup_idle_backends env now m) [
  | none ↦ none
  | some (m', acts) ↦ elim (loop m') [ none ↦ none | some (m'', more) ↦ some (m'', acts ++ more) ]
]

-- The cleanup loop, up to the end of the list or the shutdown.
unfoldable pub idle_cleanup_loop :
    List (List Op × Tick) → ProcessManager → Option (ProcessManager × List Action)
unfolding run then_tick
idle_cleanup_loop [] m = some (m, [])
idle_cleanup_loop ((meanwhile, tick) ∷ rest) m =
    then_tick (λ m'. idle_cleanup_loop rest m') tick (run m meanwhile)

-- How the attempt to lock the PID file ends.
pub data Lock : Type 0 where
  acquired would_block : Lock
  lock_failed : Text → Lock

locked : ℕ → Lock → Result Text (Unit {0}) → Text × Result Text (Unit {0})
locked pid would_block written =
    ([], err (codes "Another instance is already running (PID file is locked)"))
locked pid (lock_failed e) written = ([], err e)
locked pid acquired (ok _) = (to_text pid ++ codes "\n", ok tt)
locked pid acquired (err e) = ([], err e)

-- `PidFile::create`: the text of the file after it, where the file was opened, and the result.
unfoldable pub create_pid_file :
    ℕ
    → Result Text (Unit {0})
    → Lock
    → Result Text (Unit {0})
    → Option Text
    → Option Text × Result Text (Unit {0})
unfolding locked
create_pid_file pid (err e) lock written before = (before, err e)
create_pid_file pid (ok _) lock written before =
    let (content, result) = locked pid lock written in (some content, result)
