-- ===== src/Server.antt =====
-- src/proxy.rs and src/admin.rs: the loops of `ProxyServer::run` and `AdminServer::run`, which differ in
-- what serves a connection. Each connection has a task of its own.
use spawngate.Base.{
  ℕ, zero, suc, Bool, true, false, Option, none, some, List, [], ◌∷◌, ◌++◌, if◌then◌else◌,
}
use spawngate.Base.Text.{Text}
use spawngate.Base.Lists.{get_elem?}
pub mod Loop
pub mod Proxying
pub mod Redirects
pub mod Stopping
pub mod Administration

-- What the TLS acceptor makes of a stream.
pub data Handshake : Type 0 where
  shaken : Handshake
  handshake_failed : Text → Handshake

-- What happens next: the listener accepts a peer or fails, the shutdown flag changes, or a request
-- arrives on a connection, by its number.
pub data Event (P R : Type 0) : Type 0 where
  accepted : P → Handshake → Event P R
  accept_failed : Text → Event P R
  shutdown_changed : Bool → Event P R
  requested : ℕ → R → Event P R

-- The peers of the connections, in the order of their acceptance; `none` is one that is not served, or
-- no longer. `answers` are the answers given so far, the last one first, with their connections.
pub record Server (P M O : Type 0) : Type 0 where
  pub listening : Bool
  pub connections : List (Option P)
  pub answers : List (ℕ × O)
  pub manager : M

-- The connection with that number is over.
unfoldable pub close_connection : {P : Type 0} → ℕ → List (Option P) → List (Option P)
close_connection n [] = []
close_connection zero (c ∷ cs) = none ∷ cs
close_connection (suc n) (c ∷ cs) = c ∷ close_connection n cs

-- With no acceptor, the stream is served as it is.
unfoldable pub stream_of : {P : Type 0} → Bool → P → Handshake → Option P
stream_of false peer handshake = some peer
stream_of true peer shaken = some peer
stream_of true peer (handshake_failed e) = none

module _ {P R M O : Type 0} (has_tls : Bool) (serve : P → R → M → M × Option O) where
  -- A task that panics ends its connection.
  unfoldable pub after_request : ℕ → Server P M O → M × Option O → Server P M O
  unfolding close_connection
  after_request n s (m, none) = record s {
    connections = close_connection n s.connections;
    manager = m;
  }
  after_request n s (m, some o) = record s { answers = (n, o) ∷ s.answers; manager = m }

  unfoldable pub handle_event : Server P M O → Event P R → Server P M O
  unfolding after_request stream_of
  handle_event s (accepted peer handshake) =
      if s.listening
      then record s { connections = s.connections ++ (stream_of has_tls peer handshake ∷ []) }
      else s
  handle_event s (accept_failed e) = s
  handle_event s (shutdown_changed stop) = if stop then record s { listening = false } else s
  handle_event s (requested n r) = elim (get_elem? s.connections n) [
    | none ↦ s
    | some none ↦ s
    | some (some peer) ↦ after_request n s (serve peer r s.manager)
  ]

  unfoldable pub accept_loop : Server P M O → List (Event P R) → Server P M O
  unfolding handle_event
  accept_loop s [] = s
  accept_loop s (e ∷ es) = accept_loop (handle_event s e) es

-- A server that listens.
abbrev pub listen : {P M O : Type 0} → M → Server P M O
listen m = record { listening = true; connections = []; answers = []; manager = m }
