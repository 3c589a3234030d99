-- ===== src/Proxy/Counting.antt =====
-- A request that is forwarded leaves no trace in the in-flight count; one that opens a tunnel is
-- counted until the tunnel is closed.
use spawngate.Base.{ℕ, ◌+◌, ◌%◌, ◌≡◌, refl, sym, true, false, some, List, [], ◌∷◌, ◌++◌, arith, ◌∙◌}
use spawngate.Base.Text.{Text, text_eq_refl}
use spawngate.Base.Lists.{All, All-append}
use spawngate.Base.Dict.{get}
use spawngate.Config.{Duration}
use spawngate.Process.State.{
  ready, is_state, BackendProcess, ProcessManager, get_in_flight, usize_mod,
}
use spawngate.Process.Ops.{increment_in_flight, decrement_in_flight}
use spawngate.Process.Steps.{Op, run, step, increments, decrements, run-append}
use spawngate.Process.Invariant.{WellFormed, run-WellFormed}
use spawngate.Process.Counters.{KeepsProcess, accepted, finished, accepts, finishes}
use spawngate.Process.InFlight.{in_flight_balance}
use spawngate.Proxy.Http.{Request, HeaderValues}
use spawngate.Proxy.Upgrade.{opened, UpgradeReply, handle_upgrade, close_tunnel}
use spawngate.Proxy.Request.{Context, forward}

-- What `forward` does to the manager, as a sequence of operations.
abbrev pub counted_ops : Text → List Op → List Op
counted_ops h meanwhile = increments h ∷ (meanwhile ++ (decrements h ∷ []))

forward-manager :
    (c : Context) (h : Text) (req : Request) (port : ℕ) (timeout : Duration) (m : ProcessManager)
    → (increment_in_flight h m).1 ≡ true
    → (forward c h req port timeout m).manager
      ≡ decrement_in_flight h (run (increment_in_flight h m).0 c.meanwhile)
unfolding forward
forward-manager c h req port timeout m e = ground arith

forward-run :
    (c : Context) (h : Text) (req : Request) (port : ℕ) (timeout : Duration) (m : ProcessManager)
    → (increment_in_flight h m).1 ≡ true
    → (forward c h req port timeout m).manager ≡ run m (counted_ops h c.meanwhile)
unfolding run step
forward-run c h req port timeout m e =
    forward-manager c h req port timeout m e
    ∙ sym (run-append (increment_in_flight h m).0 c.meanwhile (decrements h ∷ []))

refused-manager :
    (c : Context) (h : Text) (req : Request) (port : ℕ) (timeout : Duration) (m : ProcessManager)
    → (increment_in_flight h m).1 ≡ false
    → (forward c h req port timeout m).manager ≡ m
unfolding forward increment_in_flight
refused-manager c h req port timeout m e = ground arith

finished-snoc :
    (h : Text) (os : List Op) → finished h (os ++ (decrements h ∷ [])) ≡ finished h os + 1
unfolding finished finishes
finished-snoc h [] = ground (arith, text_eq_refl h)
finished-snoc h (o ∷ os) = ground (arith, finished-snoc h os)

accepted-snoc :
    (h : Text) (m : ProcessManager) (os : List Op)
    → accepted h m (os ++ (decrements h ∷ [])) ≡ accepted h m os
unfolding accepted accepts
accepted-snoc h m [] = refl
accepted-snoc h m (o ∷ os) = ground (arith, accepted-snoc h (step m o) os)

finished-counted : (h : Text) (os : List Op) → finished h (counted_ops h os) ≡ finished h os + 1
unfolding finished finishes
finished-counted h os = omega (arith, finished-snoc h os)

accepted-counted :
    (h : Text) (m : ProcessManager) (os : List Op)
    → (increment_in_flight h m).1 ≡ true
    → accepted h m (counted_ops h os) ≡ accepted h (increment_in_flight h m).0 os + 1
unfolding accepted accepts step
accepted-counted h m os e =
    ground (arith, accepted-snoc h (increment_in_flight h m).0 os, text_eq_refl h)

-- Counted, and later reported as done, whatever other tasks do in between.
module _ (m : ProcessManager) (h : Text) (p : BackendProcess) (os : List Op) (w : WellFormed m)
    (e : get h m.processes ≡ some p) (quiet : All (KeepsProcess h) os)
    (counted : (increment_in_flight h m).1 ≡ true) where
  counted-balance :
      (get_in_flight (run m (counted_ops h os)) h + finished h os) % usize_mod
      ≡ (get_in_flight m h + accepted h (increment_in_flight h m).0 os) % usize_mod
  counted-balance =
      let quiet' : All (KeepsProcess h) (counted_ops h os) =
        (tt, All-append (KeepsProcess h) os (decrements h ∷ []) quiet (tt, tt)) in
      omega (
        arith,
        in_flight_balance h m p (counted_ops h os) w quiet' e,
        finished-counted h os,
        accepted-counted h m os counted,
      )

  -- While it is counted.
  open-balance :
      (get_in_flight (run (increment_in_flight h m).0 os) h + finished h os) % usize_mod
      ≡ (get_in_flight m h + 1 + accepted h (increment_in_flight h m).0 os) % usize_mod
  unfolding run step accepted finished accepts finishes
  open-balance =
      let b = in_flight_balance h m p (increments h ∷ os) w (tt, quiet) e in
      ground (arith, b, counted, text_eq_refl h)

-- A request that is forwarded leaves no trace in the in-flight count of its backend, whether the
-- backend answers, the connection fails or the timeout passes: where the process is not replaced,
-- the count moves by what other tasks accept and report as done meanwhile, modulo 2^64.
pub forward-balance :
    (c : Context) (h : Text) (req : Request) (port : ℕ) (timeout : Duration) (m : ProcessManager)
    (p : BackendProcess)
    → WellFormed m
    → get h m.processes ≡ some p
    → All (KeepsProcess h) c.meanwhile
    → (increment_in_flight h m).1 ≡ true
    → (get_in_flight (forward c h req port timeout m).manager h + finished h c.meanwhile)
        % usize_mod
      ≡ (get_in_flight m h + accepted h (increment_in_flight h m).0 c.meanwhile) % usize_mod
forward-balance c h req port timeout m p w e quiet counted =
    rw (forward-run c h req port timeout m counted)
      (counted-balance m h p c.meanwhile w e quiet counted)

opened-increment :
    (http : HeaderValues) (meanwhile : List Op) (reply : UpgradeReply) (h : Text)
    (m : ProcessManager)
    → (handle_upgrade http meanwhile reply h m).1 ≡ opened
    → ((increment_in_flight h (run m meanwhile)).1 ≡ true)
      × ((handle_upgrade http meanwhile reply h m).2 ≡ (increment_in_flight h (run m meanwhile)).0)
unfolding handle_upgrade increment_in_flight
opened-increment http meanwhile reply h m e = (ground arith, ground arith)

increment-ready :
    (m : ProcessManager) (h : Text) (p : BackendProcess)
    → get h m.processes ≡ some p
    → (increment_in_flight h m).1 ≡ true
    → p.state ≡ ready
unfolding increment_in_flight is_state
increment-ready m h p e counted = ground arith

close_tunnel-run :
    (m : ProcessManager) (h : Text) (os : List Op)
    → close_tunnel h (run (increment_in_flight h m).0 os) ≡ run m (counted_ops h os)
unfolding close_tunnel run step
close_tunnel-run m h os = sym (run-append (increment_in_flight h m).0 os (decrements h ∷ []))

-- A tunnel is opened only to a backend that is `Ready`, and counts as one request in flight until it
-- is closed: where the process is not replaced, the count while the tunnel is open is one more than
-- when the backend's answer arrived, and closing it takes this one off, each but for what other tasks
-- accept and report as done since, modulo 2^64.
pub tunnel-balance :
    (http : HeaderValues) (meanwhile others : List Op) (reply : UpgradeReply) (h : Text)
    (m : ProcessManager) (p : BackendProcess)
    → WellFormed m
    → get h (run m meanwhile).processes ≡ some p
    → All (KeepsProcess h) others
    → (handle_upgrade http meanwhile reply h m).1 ≡ opened
    → (p.state ≡ ready)
      × ((get_in_flight (run (handle_upgrade http meanwhile reply h m).2 others) h
              + finished h others)
            % usize_mod
          ≡ (get_in_flight (run m meanwhile) h
              + 1
              + accepted h (increment_in_flight h (run m meanwhile)).0 others)
            % usize_mod)
      × ((get_in_flight (close_tunnel h (run (handle_upgrade http meanwhile reply h m).2 others)) h
              + finished h others)
            % usize_mod
          ≡ (get_in_flight (run m meanwhile) h
              + accepted h (increment_in_flight h (run m meanwhile)).0 others)
            % usize_mod)
tunnel-balance http meanwhile others reply h m p w e quiet is_open =
    let (counted, after) = opened-increment http meanwhile reply h m is_open in
    (
      increment-ready (run m meanwhile) h p e counted,
      rw after (
          open-balance (run m meanwhile) h p others (run-WellFormed m meanwhile w) e quiet counted),
      rw (after, close_tunnel-run (run m meanwhile) h others)
          (counted-balance (run m meanwhile) h p others (run-WellFormed m meanwhile w) e quiet
            counted),
    )
