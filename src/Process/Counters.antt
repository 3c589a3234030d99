-- ===== src/Process/Counters.antt =====
-- What one step does to the in-flight counter of a backend, and what it counts for.
use spawngate.Base.{
  ℕ, ◌+◌, ◌%◌, ◌<◌, ◌≡◌, ◌≢◌, refl, false, Option, none, some, List, [], ◌∷◌, arith, if◌then◌else◌,
  inl, inr, Option-cases, ◌&&◌,
}
use spawngate.Base.Text.{Text, text_eq, text_eq_refl, text_eq_iff}
use spawngate.Base.Dict.{get, get-insert_self}
use spawngate.Process.State.{is_state, ProcessManager, get_in_flight, usize_mod}
use spawngate.Process.Ops.{
  touch, increment_in_flight, decrement_in_flight, mark_ready, mark_unhealthy,
  record_health_failure, reset_health_failures, insert_process, mark_stopping, remove_process,
}
use spawngate.Process.Steps.{
  Op, step, target, touches, increments, decrements, marks_ready, marks_unhealthy, records_failure,
  resets_failures, inserts, marks_stopping, removes,
}
use spawngate.Process.Invariant.{WellFormed}

-- The operation leaves backend `h` the process that it has.
abbrev pub KeepsProcess : Text → Op → Type 0
KeepsProcess h (inserts now j handle) = text_eq j h ≡ false
KeepsProcess h (removes j) = text_eq j h ≡ false
KeepsProcess h _ = Unit

-- Requests for `h` that the operation accepts, and that it reports as done.
unfoldable pub accepts : Text → ProcessManager → Op → ℕ
accepts h m (increments j) = if text_eq j h && (increment_in_flight j m).1 then 1 else 0
accepts h m _ = 0

unfoldable pub finishes : Text → Op → ℕ
finishes h (decrements j) = if text_eq j h then 1 else 0
finishes h _ = 0

unfoldable pub accepted : Text → ProcessManager → List Op → ℕ
unfolding accepts
accepted h m [] = 0
accepted h m (o ∷ os) = accepts h m o + accepted h (step m o) os

unfoldable pub finished : Text → List Op → ℕ
unfolding finishes
finished h [] = 0
finished h (o ∷ os) = finishes h o + finished h os

-- The address of the counter of `h`.
unfoldable pub counter_of : Text → ProcessManager → Option ℕ
counter_of h m = elim (get h m.processes) [ none ↦ none | some p ↦ some p.in_flight ]

module _ (m : ProcessManager) (a : ℕ) where
  pub address-step :
      (o : Op)
      → KeepsProcess (target o) o
      → counter_of (target o) m ≡ some a
      → counter_of (target o) (step m o) ≡ some a
  unfolding counter_of step touch increment_in_flight decrement_in_flight mark_ready mark_unhealthy
      record_health_failure reset_health_failures insert_process mark_stopping remove_process
      is_state
  address-step (touches now h) k e = grind (arith, get-insert_self)
  address-step (increments h) k e = grind (arith, get-insert_self)
  address-step (decrements h) k e = grind (arith, get-insert_self)
  address-step (marks_ready now h) k e = grind (arith, get-insert_self)
  address-step (marks_unhealthy h) k e = grind (arith, get-insert_self)
  address-step (records_failure h t) k e = grind (arith, get-insert_self)
  address-step (resets_failures h) k e = grind (arith, get-insert_self)
  address-step (inserts now h handle) k e = ground (arith, text_eq_refl h)
  address-step (marks_stopping h) k e = grind (arith, get-insert_self)
  address-step (removes h) k e = ground (arith, text_eq_refl h)

  pub counters-step :
      (o : Op)
      → KeepsProcess (target o) o
      → counter_of (target o) m ≡ some a
      → ((step m o).counters a + finishes (target o) o) % usize_mod
        ≡ (m.counters a + accepts (target o) m o) % usize_mod
  unfolding counter_of step touch increment_in_flight decrement_in_flight mark_ready mark_unhealthy
      record_health_failure reset_health_failures insert_process mark_stopping remove_process
      is_state accepts finishes
  counters-step (touches now h) k e = ground (arith, text_eq_refl h)
  counters-step (increments h) k e = ground (arith, text_eq_refl h)
  counters-step (decrements h) k e = ground (arith, text_eq_refl h)
  counters-step (marks_ready now h) k e = ground (arith, text_eq_refl h)
  counters-step (marks_unhealthy h) k e = ground (arith, text_eq_refl h)
  counters-step (records_failure h t) k e = ground (arith, text_eq_refl h)
  counters-step (resets_failures h) k e = ground (arith, text_eq_refl h)
  counters-step (inserts now h handle) k e = ground (arith, text_eq_refl h)
  counters-step (marks_stopping h) k e = ground (arith, text_eq_refl h)
  counters-step (removes h) k e = ground (arith, text_eq_refl h)

  counter-fresh : (h : Text) → WellFormed m → counter_of h m ≡ some a → a < m.next_id
  unfolding counter_of
  counter-fresh h w e = elim (Option-cases (get h m.processes)) [
    | inl f ↦ absurd (ground arith)
    | inr (p, f) ↦ ground (arith, w.fresh h p)
  ]

  counter-unshared :
      (h j : Text)
      → WellFormed m
      → text_eq j h ≡ false
      → counter_of h m ≡ some a
      → counter_of j m ≢ some a
  unfolding counter_of
  counter-unshared h j w ne e f = elim (Option-cases (get h m.processes)) [
    | inl x ↦ ground arith
    | inr (p, x) ↦ elim (Option-cases (get j m.processes)) [
      | inl y ↦ ground arith
      | inr (q, y) ↦ ground (arith, w.unshared h j p q, text_eq_iff j h)
    ]
  ]

  pub counters-frame :
      (o : Op) (h : Text)
      → WellFormed m
      → text_eq (target o) h ≡ false
      → counter_of h m ≡ some a
      → (step m o).counters a ≡ m.counters a
  unfolding counter_of step touch increment_in_flight decrement_in_flight mark_ready mark_unhealthy
      record_health_failure reset_health_failures insert_process mark_stopping remove_process
      is_state
  counters-frame (touches now j) h w ne e =
      ground (arith, counter-fresh h w, counter-unshared h j w)
  counters-frame (increments j) h w ne e = ground (arith, counter-fresh h w, counter-unshared h j w)
  counters-frame (decrements j) h w ne e = ground (arith, counter-fresh h w, counter-unshared h j w)
  counters-frame (marks_ready now j) h w ne e =
      ground (arith, counter-fresh h w, counter-unshared h j w)
  counters-frame (marks_unhealthy j) h w ne e =
      ground (arith, counter-fresh h w, counter-unshared h j w)
  counters-frame (records_failure j t) h w ne e =
      ground (arith, counter-fresh h w, counter-unshared h j w)
  counters-frame (resets_failures j) h w ne e =
      ground (arith, counter-fresh h w, counter-unshared h j w)
  counters-frame (inserts now j jandle) h w ne e =
      ground (arith, counter-fresh h w, counter-unshared h j w)
  counters-frame (marks_stopping j) h w ne e =
      ground (arith, counter-fresh h w, counter-unshared h j w)
  counters-frame (removes j) h w ne e = ground (arith, counter-fresh h w, counter-unshared h j w)

pub get_in_flight-counter :
    (m : ProcessManager) (h : Text) (a : ℕ)
    → counter_of h m ≡ some a
    → get_in_flight m h ≡ m.counters a
unfolding get_in_flight counter_of
get_in_flight-counter m h a e = ground arith

pub finishes_ne : (h : Text) (o : Op) → text_eq (target o) h ≡ false → finishes h o ≡ 0
unfolding finishes
finishes_ne h (decrements j) ne = rw ne
finishes_ne h _ ne = refl

pub accepts_ne :
    (h : Text) (m : ProcessManager) (o : Op) → text_eq (target o) h ≡ false → accepts h m o ≡ 0
unfolding accepts
accepts_ne h m (increments j) ne = ground arith
accepts_ne h m _ ne = refl
