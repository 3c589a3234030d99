-- ===== src/Tests/Statuses.antt =====
-- What the operations on a backend do to its status.
use spawngate.Base.{◌≡◌, List, [], ◌∷◌}
use spawngate.Process.Steps.{Op, run, increments, decrements}
use spawngate.Process.Abstract.{status_of, moves, run_refines}
use spawngate.Tests.Data.{app, serving, serving-WellFormed}

abbrev requests : List Op
requests = increments app ∷ increments app ∷ decrements app ∷ []

run_refines_example :
    status_of (run serving requests) app ≡ moves app requests (status_of serving app)
run_refines_example = run_refines serving requests app serving-WellFormed
