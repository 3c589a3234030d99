-- ===== src/Process/Cleaning.antt =====
-- What the cleanup of idle backends leaves.
use spawngate.Base.{ℕ, ◌≡◌, refl, Option, some, List, [], ◌∷◌, ◌++◌, inl, inr, arith, Option-cases}
use spawngate.Base.Text.{Text}
use spawngate.Base.Dict.{get}
use spawngate.Process.State.{ProcessManager}
use spawngate.Process.Startup.{Elsewhere}
use spawngate.Process.Stop.{Weather, stop_backend}
use spawngate.Process.Draining.{Sleeps, stop_backend-ne-none}
use spawngate.Process.Cleanup.{stop_each}

abbrev pub Ends : {A : Type 0} → Option A → Type 0
Ends {A} o = (a : A) × (o ≡ some a)

-- Stops of backends whose sleeps last come to an end, one after the other.
pub stop_each-Ends :
    (env : Text → Weather) (hs : List Text) (m : ProcessManager)
    → ((k : Text) → Sleeps (env k))
    → Ends (stop_each env hs m)
unfolding stop_each
stop_each-Ends env [] m sleeps = ((m, []), refl)
stop_each-Ends env (h ∷ hs) m sleeps = elim (Option-cases (stop_backend (env h) h m)) [
  | inl e ↦ absurd (stop_backend-ne-none (env h) h m (sleeps h) e)
  | inr ((m', acts), e) ↦
      let (r, f) = stop_each-Ends env hs m' sleeps in ((r.0, acts ++ r.1), ground (arith, e, f))
]

-- What other tasks do while a backend is stopped is not about `h`.
pub record LeavesAlone (h : Text) (env : Weather) : Type 0 where
  pub marking : Elsewhere h env.before_mark
  pub sleeping : (n : ℕ) → Elsewhere h (env.during_sleep n)

-- The entry of `h` is as it was.
abbrev Same : Text → ProcessManager → ProcessManager → Type 0
Same h m m' = get h m'.processes ≡ get h m.processes
