-- ===== src/Main/Shutdown.antt =====
-- The end of the program.
use spawngate.Base.{
  ◌≡◌, ◌≢◌, refl, Option, none, some, List, [], ◌∷◌, ◌++◌, Result, err, arith, Result-cases, inl,
  inr,
}
use spawngate.Base.Text.{Text}
use spawngate.Base.Lists.{All}
use spawngate.Base.Dict.{Dict}
use spawngate.Config.{BackendConfig, BackendDefaults, Config, load}
use spawngate.Process.State.{ProcessManager}
use spawngate.Process.Stop.{Weather, Action}
use spawngate.Process.Cleanup.{stop_all}
use spawngate.Process.Reload.{apply_config, to_remove, reload_config}
use spawngate.Process.Draining.{Sleeps}
use spawngate.Process.Cleaning.{Ends, stop_each-Ends}
use spawngate.Main.Signals.{Signal, ctrl_c, sigterm, sighup, Arrival, handle, signal_loop, serve}

abbrev pub IsEnd : Signal → Type 0
IsEnd ctrl_c = Unit
IsEnd sigterm = Unit
IsEnd (sighup file) = ⊥

from_ne : {A : Type 0} (o : Option A) → o ≢ none → Ends o
from_ne none q = absurd (q refl)
from_ne (some a) q = (a, refl)

module _ (from_str : Text → Result Text Config) (env : Text → Weather)
    (sleeps : (k : Text) → Sleeps (env k)) where
  apply_config-Ends :
      (configs : Dict BackendConfig) (defaults : BackendDefaults) (m : ProcessManager)
      → Ends (apply_config env configs defaults m)
  unfolding apply_config
  apply_config-Ends configs defaults m =
      let (r, f) = stop_each-Ends env (to_remove m.configs configs) m sleeps in
      from_ne (apply_config env configs defaults m) λ e. ground (arith, f, e)

  reload_config-Ends :
      (file : Result Text Text) (m : ProcessManager) → Ends (reload_config from_str env file m)
  unfolding reload_config
  reload_config-Ends file m = elim (Result-cases (load from_str file)) [
    | inr (x, e) ↦ ((m, [], err x), ground (arith, e))
    | inl (config, e) ↦
        let (r, f) = apply_config-Ends config.backends config.defaults m in
        from_ne (reload_config from_str env file m) λ g. ground (arith, e, f, g)
  ]

  handle-Ends :
      (signal : Signal) (loop : ProcessManager → Option (ProcessManager × List Action))
      (m : ProcessManager)
      → ((m' : ProcessManager) → Ends (loop m'))
      → Ends (handle from_str env signal loop m)
  unfolding handle
  handle-Ends ctrl_c loop m q = (_, refl)
  handle-Ends sigterm loop m q = (_, refl)
  handle-Ends (sighup file) loop m q =
      let (r, f) = reload_config-Ends file m in
      let (t, g) = q r.0 in ((t.0, r.1 ++ t.1), ground (arith, f, g))

-- The sleeps of the stops at the signal last at least as long as they are asked to.
abbrev pub Lasts : Arrival → Type 0
Lasts a = (k : Text) → Sleeps (a.weather k)

module _ (from_str : Text → Result Text Config) where
  ended :
      (env : Text → Weather) (signal : Signal)
      (loop : ProcessManager → Option (ProcessManager × List Action)) (m : ProcessManager)
      → IsEnd signal
      → Ends (handle from_str env signal loop m)
  unfolding handle
  ended env ctrl_c loop m u = (_, refl)
  ended env sigterm loop m u = (_, refl)
  ended env (sighup file) loop m u = absurd u

  signal_loop-Ends :
      (before : List Arrival) (a : Arrival) (rest : List Arrival) (m : ProcessManager)
      → All Lasts before
      → IsEnd a.signal
      → Ends (signal_loop from_str (before ++ (a ∷ rest)) m)
  unfolding signal_loop
  signal_loop-Ends [] a rest m l u = ended a.weather a.signal _ _ u
  signal_loop-Ends (b ∷ before) a rest m (l, ls) u =
      handle-Ends from_str b.weather l b.signal _ _ λ m'. signal_loop-Ends before a rest m' ls u

  -- After Ctrl+C or SIGTERM the program comes to the end of its stops, whatever was reloaded before, if each
  -- sleep lasts at least as long as it is asked to: what the stops leave is that of `stop_all`, in a
  -- state of the manager in which the signal loop ended.
  pub serve-Ends :
      (env : Text → Weather) (before : List Arrival) (a : Arrival) (rest : List Arrival)
      (m : ProcessManager)
      → All Lasts before
      → ((k : Text) → Sleeps (env k))
      → IsEnd a.signal
      → (last : ProcessManager) × (stopped : ProcessManager) × (acts : List Action) × (more : List
          Action)
        × (stop_all env last ≡ some (stopped, more))
        × (serve from_str env (before ++ (a ∷ rest)) m ≡ some (stopped, acts ++ more))
  unfolding serve stop_all
  serve-Ends env before a rest m l sleeps u =
      let (r, f) = signal_loop-Ends before a rest m l u in
      let (t, g) : Ends (stop_all env r.0) = stop_each-Ends env _ r.0 sleeps in
      (r.0, t.0, r.1, t.1, g, ground (arith, f, g))
