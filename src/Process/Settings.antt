-- ===== src/Process/Settings.antt =====
-- src/process.rs: the operations on backends leave the configuration as it is.
use spawngate.Base.{ℕ, ◌≡◌, refl, ◌∙◌, ap, List, arith}
use spawngate.Base.Text.{Text}
use spawngate.Base.Dict.{get}
use spawngate.Process.State.{ProcessHandle, ProcessManager, get_config}
use spawngate.Process.Ops.{
  touch, increment_in_flight, decrement_in_flight, mark_ready, mark_unhealthy,
  record_health_failure, reset_health_failures, insert_process, mark_stopping, remove_process,
}
use spawngate.Process.Steps.{
  Op, step, run, run_induction, touches, increments, decrements, marks_ready, marks_unhealthy,
  records_failure, resets_failures, inserts, marks_stopping, removes,
}

pub record SameSettings (m n : ProcessManager) : Type 0 where
  pub configs : n.configs ≡ m.configs
  pub defaults : n.defaults ≡ m.defaults

abbrev pub same_settings : {m : ProcessManager} → SameSettings m m
same_settings = record { configs = refl; defaults = refl }

pub SameSettings-trans :
    {m n o : ProcessManager} → SameSettings m n → SameSettings n o → SameSettings m o
SameSettings-trans s t = record {
  configs = t.configs ∙ s.configs;
  defaults = t.defaults ∙ s.defaults;
}

pub get_config-SameSettings :
    {m n : ProcessManager} (h : Text) → SameSettings m n → get_config n h ≡ get_config m h
unfolding get_config
get_config-SameSettings h s = ap (get h) s.configs

pub insert_process-SameSettings :
    (now : ℕ) (h : Text) (handle : ProcessHandle) (m : ProcessManager)
    → SameSettings m (insert_process now h handle m)
unfolding insert_process
insert_process-SameSettings now h handle m = record { configs = refl; defaults = refl }

step-SameSettings : (m : ProcessManager) (o : Op) → SameSettings m (step m o)
unfolding step touch increment_in_flight decrement_in_flight mark_ready mark_unhealthy
    record_health_failure reset_health_failures insert_process mark_stopping remove_process
step-SameSettings m (touches now h) = record { configs = ground arith; defaults = ground arith }
step-SameSettings m (increments h) = record { configs = ground arith; defaults = ground arith }
step-SameSettings m (decrements h) = record { configs = ground arith; defaults = ground arith }
step-SameSettings m (marks_ready now h) = record { configs = ground arith; defaults = ground arith }
step-SameSettings m (marks_unhealthy h) = record { configs = ground arith; defaults = ground arith }
step-SameSettings m (records_failure h t) = record {
  configs = ground arith;
  defaults = ground arith;
}
step-SameSettings m (resets_failures h) = record { configs = ground arith; defaults = ground arith }
step-SameSettings m (inserts now h handle) = insert_process-SameSettings now h handle m
step-SameSettings m (marks_stopping h) = record { configs = ground arith; defaults = ground arith }
step-SameSettings m (removes h) = record { configs = ground arith; defaults = ground arith }

pub run-SameSettings : (m : ProcessManager) (os : List Op) → SameSettings m (run m os)
run-SameSettings m os =
    run_induction (SameSettings m) (λ n o s. SameSettings-trans s (step-SameSettings n o)) m os
      same_settings
