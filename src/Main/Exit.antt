-- ===== src/Main/Exit.antt =====
-- src/main.rs: the end of `main`, from the signal loop on.
use spawngate.Base.{◌≡◌, refl, Bool, Option, none, some, List, ◌∷◌, ◌++◌, Result, ok, err}
use spawngate.Base.Text.{Text}
use spawngate.Base.Lists.{All}
use spawngate.Base.Dict.{get}
use spawngate.Config.{Config}
use spawngate.Process.State.{ProcessManager}
use spawngate.Process.Stop.{Weather, Action}
use spawngate.Process.Draining.{Sleeps}
use spawngate.Process.Steps.{Op, run}
use spawngate.Process.Idle.{IsCalm, InsertsNothing, run-Absent, stop_all-Absent}
use spawngate.Main.Signals.{Arrival, serve}
use spawngate.Main.Shutdown.{IsEnd, Lasts, serve-Ends}

-- Where the program ends: the manager and what was done to its backends, whether the ACME task was
-- aborted, and the text of the PID file, if it is there.
pub record Ended : Type 0 where
  pub manager : ProcessManager
  pub actions : List Action
  pub acme_aborted : Bool
  pub pid_file : Option Text

-- `pid_file_path`, how the removal ends, and the file before it. An error is only logged.
unfoldable pub remove_pid_file : Option Text → Result Text (Unit {0}) → Option Text → Option Text
remove_pid_file none removed content = content
remove_pid_file (some path) (err e) content = content
remove_pid_file (some path) (ok _) content = none

-- The servers are waited for before the PID file is removed, for at most five seconds. The tasks of
-- open connections, of health checks and of tunnels go on meanwhile: `late` is what they do.
unfoldable pub shut_down :
    (Text → Result Text Config)
    → (Text → Weather)
    → (acme_task : Bool) → Option Text
    → Result Text (Unit {0})
    → Option Text
    → List Arrival
    → (late : List Op) → ProcessManager
    → Option Ended
unfolding serve remove_pid_file run
shut_down from_str env acme_task pid_file_path removed content arrivals late m =
    elim (serve from_str env arrivals m) [
      | none ↦ none
      | some (m', actions) ↦ some (record {
        manager = run m' late;
        actions = actions;
        acme_aborted = acme_task;
        pid_file = remove_pid_file pid_file_path removed content;
      })
    ]

-- After Ctrl+C or SIGTERM the program comes to its end, whatever was reloaded before, and leaves no process
-- in the map. The conditions are that each sleep of a stop, at the reloads before and at the end, lasts at
-- least as long as it is asked to, and that no other task starts a backend from the stop of the backends
-- on: neither while one is stopped, nor while the servers are waited for.
pub shut_down-Absent :
    (from_str : Text → Result Text Config) (env : Text → Weather) (acme_task : Bool)
    (path : Option Text) (removed : Result Text (Unit {0})) (content : Option Text)
    (before : List Arrival) (a : Arrival) (rest : List Arrival) (late : List Op)
    (m : ProcessManager)
    → All Lasts before
    → ((k : Text) → Sleeps (env k))
    → IsEnd a.signal
    → ((k : Text) → IsCalm (env k))
    → All InsertsNothing late
    → (e : Ended) × (shut_down from_str env acme_task path removed content
          (before ++ (a ∷ rest))
          late
          m
        ≡ some e)
      × ((h : Text) → get h e.manager.processes ≡ none)
unfolding shut_down
shut_down-Absent from_str env acme_task path removed content before a rest late m l sleeps u calm
      q =
    let (last, stopped, acts, more, all, f) = serve-Ends from_str env before a rest m l sleeps u in
    (
      record {
        manager = run stopped late;
        actions = acts ++ more;
        acme_aborted = acme_task;
        pid_file = remove_pid_file path removed content;
      },
      rw (shut_down, f) refl,
      λ h. run-Absent stopped late h q (stop_all-Absent env last stopped more calm all h),
    )
