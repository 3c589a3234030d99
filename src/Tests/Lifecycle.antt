-- ===== src/Tests/Lifecycle.antt =====
-- The lifecycle of the backend, its count and its end.
use spawngate.Base.{◌+◌, ◌≡◌, ◌≢◌, arith, refl, false, none, some, List, [], ◌∷◌}
use spawngate.Base.Text.{codes, text_eq}
use spawngate.Base.Lists.{All}
use spawngate.Base.Dict.{get, insert, remove}
use spawngate.Config.{local_config}
use spawngate.Process.State.{is_state, new, get_in_flight, get_config}
use spawngate.Process.Ops.{
  insert_process, mark_ready, mark_stopping, remove_process, increment_in_flight,
  decrement_in_flight,
}
use spawngate.Process.Steps.{Op, step, run, marks_ready, increments, decrements, touches}
use spawngate.Process.Invariant.{WellFormed, new-WellFormed, run-WellFormed}
use spawngate.Process.Lifecycle.{closing_refuses}
use spawngate.Process.Counters.{KeepsProcess, accepted, finished, accepts, finishes}
use spawngate.Process.InFlight.{in_flight_exact}
use spawngate.Process.Stop.{sigterm, drain, drain_fuel, stop_backend, end_process}
use spawngate.Process.Draining.{stop_backend-ne-none}
use spawngate.Process.Cleanup.{stop_all}
use spawngate.Tests.Data.{
  app, fresh, to_serving, serving, app_process, serving-WellFormed, get-serving, serving-IsBounded,
  get_in_flight-serving, quiet_weather, quiet_weather-Sleeps, after_stop,
}

-- Two requests come, one of them ends, and a backend that is not configured is asked for.
abbrev traffic : List Op
traffic =
    increments app
    ∷ increments (codes "other.local")
    ∷ increments app
    ∷ touches 9 app
    ∷ decrements app
    ∷ []

finished-traffic : finished app traffic ≡ 1
unfolding finished finishes text_eq
finished-traffic = refl

accepted-traffic : accepted app serving traffic ≡ 2
unfolding accepted accepts run step new insert_process mark_ready increment_in_flight
    decrement_in_flight is_state get insert remove text_eq
accepted-traffic = refl

traffic-KeepsProcess : All (KeepsProcess app) traffic
traffic-KeepsProcess = (tt, (tt, (tt, (tt, (tt, tt)))))

in_flight_exact_example :
    get_in_flight (run serving traffic) app + finished app traffic ≡ accepted app serving traffic
in_flight_exact_example =
    in_flight_exact app serving app_process traffic serving-WellFormed traffic-KeepsProcess
      get-serving serving-IsBounded get_in_flight-serving
      (omega (arith, finished-traffic, accepted-traffic)) (omega (arith, accepted-traffic))

run-WellFormed_example : WellFormed (run fresh (to_serving))
run-WellFormed_example = run-WellFormed fresh to_serving (new-WellFormed _ _ _)

-- Late notifications and requests.
abbrev late : List Op
late = marks_ready 20 app ∷ increments app ∷ []

closing_refuses_example :
    increment_in_flight app (run (mark_stopping app serving) late)
    ≡ (run (mark_stopping app serving) late, false)
closing_refuses_example = closing_refuses serving late app serving-WellFormed (tt, (tt, tt))

stop_backend-ne-none_example : stop_backend quiet_weather app serving ≢ none
stop_backend-ne-none_example = stop_backend-ne-none quiet_weather app serving quiet_weather-Sleeps

stop_all-serving : stop_all (λ _. quiet_weather) serving ≡ some (after_stop, sigterm 7 ∷ [])
unfolding stop_all stop_backend mark_stopping remove_process run step new insert_process mark_ready
    is_state get insert remove text_eq drain drain_fuel get_config local_config end_process
stop_all-serving = refl
