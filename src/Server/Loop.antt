-- ===== src/Server/Loop.antt =====
-- What holds of the loops, whatever serves the connections.
use spawngate.Base.{
  ℕ, ◌≡◌, refl, Bool, true, false, Option, none, some, List, [], ◌∷◌, ◌++◌, arith, subst, sym, inl,
  inr, Option-cases,
}
use spawngate.Base.Lists.{All, get_elem?}
use spawngate.Server.{
  Event, accepted, accept_failed, shutdown_changed, requested, Server, after_request, handle_event,
  accept_loop, listen,
}

module _ {P R M O : Type 0} (has_tls : Bool) (serve : P → R → M → M × Option O) where
  pub accept_loop-append :
      (s : Server P M O) (es fs : List (Event P R))
      → accept_loop has_tls serve s (es ++ fs)
        ≡ accept_loop has_tls serve (accept_loop has_tls serve s es) fs
  unfolding accept_loop
  accept_loop-append s [] fs = refl
  accept_loop-append s (e ∷ es) fs = accept_loop-append (handle_event has_tls serve s e) es fs

  -- An invariant of every step is one of every run.
  pub accept_loop_induction :
      (I : Server P M O → Type 0) (Q : Event P R → Type 0)
      → ((s : Server P M O) (e : Event P R) → Q e → I s → I (handle_event has_tls serve s e))
      → (s : Server P M O) (es : List (Event P R)) → All Q es
      → I s
      → I (accept_loop has_tls serve s es)
  unfolding accept_loop
  accept_loop_induction I Q keep s [] q h = h
  accept_loop_induction I Q keep s (e ∷ es) (q, qs) h =
      accept_loop_induction I Q keep (handle_event has_tls serve s e) es qs (keep s e q h)

  pub requested_open :
      (s : Server P M O) (i : ℕ) (peer : P) (r : R)
      → get_elem? s.connections i ≡ some (some peer)
      → handle_event has_tls serve s (requested i r)
        ≡ after_request has_tls serve i s (serve peer r s.manager)
  unfolding handle_event
  requested_open s i peer r e = rw (handle_event, e) refl

-- The requests among the events.
abbrev pub Asks : {P R : Type 0} → (R → Type 0) → Event P R → Type 0
Asks Q (accepted peer handshake) = Unit
Asks Q (accept_failed e) = Unit
Asks Q (shutdown_changed stop) = Unit
Asks Q (requested n r) = Q r

-- The manager is as it was, and the answer, if there is one, is of that kind.
abbrev pub IsQuiet : {M O : Type 0} → (O → Type 0) → M → M × Option O → Type 0
IsQuiet G m (m', none) = m' ≡ m
IsQuiet G m (m', some o) = (m' ≡ m) × G o

-- Nothing was changed in the manager, and all answers are of that kind.
pub record Quiet {P M O : Type 0} (G : O → Type 0) (m : M) (s : Server P M O) : Type 0 where
  pub manager : s.manager ≡ m
  pub answers : All (λ a. G a.1) s.answers

module _ {P R M O : Type 0} (has_tls : Bool) (serve : P → R → M → M × Option O) (G : O → Type 0)
    (Q : R → Type 0) (m : M) (quiet : (peer : P) (r : R) → Q r → IsQuiet G m (serve peer r m)) where
  after_request-Quiet :
      (n : ℕ) (s : Server P M O) (r : M × Option O)
      → IsQuiet G m r
      → Quiet G m s
      → Quiet G m (after_request has_tls serve n s r)
  unfolding after_request
  after_request-Quiet n s (m', none) e q = record { manager = e; answers = q.answers }
  after_request-Quiet n s (m', some o) (e, g) q = record { manager = e; answers = (g, q.answers) }

  requested-Quiet :
      (s : Server P M O) (n : ℕ) (r : R)
      → Q r
      → Quiet G m s
      → Quiet G m (handle_event has_tls serve s (requested n r))
  unfolding handle_event
  requested-Quiet s n r asks q = elim (Option-cases (get_elem? s.connections n)) [
    | inl e ↦ rw (handle_event, e) q
    | inr (none, e) ↦ rw (handle_event, e) q
    | inr (some peer, e) ↦
        rw (handle_event, e)
          (after_request-Quiet n s (serve peer r s.manager)
            (subst (λ k. IsQuiet G m (serve peer r k)) (sym q.manager) (quiet peer r asks)) q)
  ]

  handle_event-Quiet :
      (s : Server P M O) (e : Event P R)
      → Asks Q e
      → Quiet G m s
      → Quiet G m (handle_event has_tls serve s e)
  unfolding handle_event
  handle_event-Quiet s (accepted peer handshake) u q = ground (arith, q, q.manager, q.answers)
  handle_event-Quiet s (accept_failed e) u q = q
  handle_event-Quiet s (shutdown_changed true) u q = record {
    manager = q.manager;
    answers = q.answers;
  }
  handle_event-Quiet s (shutdown_changed false) u q = q
  handle_event-Quiet s (requested n r) asks q = requested-Quiet s n r asks q

  -- Requests that change nothing, one by one, change nothing together.
  pub accept_loop-Quiet :
      (es : List (Event P R))
      → All (Asks Q) es
      → Quiet G m (accept_loop has_tls serve (listen m) es)
  accept_loop-Quiet es asks =
      accept_loop_induction has_tls serve (λ s. Quiet G m s) (Asks Q) handle_event-Quiet (listen m)
        es asks (record { manager = refl; answers = tt })
