-- ===== src/Server/Administration.antt =====
-- src/admin.rs: `AdminServer`, with `serve_admin_connection`.
use spawngate.Base.{ℕ, ◌≡◌, Option, none, some, List, Result, ok, err, is_some, ok-inj, subst}
use spawngate.Base.Text.{Text}
use spawngate.Base.Lists.{All}
use spawngate.Process.State.{ProcessManager}
use spawngate.Proxy.Http.{Request}
use spawngate.Main.Tls.{TlsAcceptor}
use spawngate.Admin.{AdminResponse, handle_admin_request}
use spawngate.Admin.Guard.{
  LacksToken, check_auth-LacksToken, HidesBackends, handle_admin_request-Refused,
}
use spawngate.Server.{Event, Server, listen, accept_loop}
use spawngate.Server.Loop.{Asks, IsQuiet, Quiet, accept_loop-Quiet}

-- The manager is the state of the loop.
pub record AdminServer (A : Type 0) : Type 0 where
  pub bind_addr : A
  pub tls_acceptor : Option TlsAcceptor
  pub auth_token : Text

module _ {A : Type 0} where
  unfoldable pub new_admin : A → Text → AdminServer A
  new_admin bind_addr auth_token = record {
    bind_addr = bind_addr;
    tls_acceptor = none;
    auth_token = auth_token;
  }

  unfoldable pub admin_with_tls : TlsAcceptor → AdminServer A → AdminServer A
  admin_with_tls acceptor s = record s { tls_acceptor = some acceptor }

  -- The service of `serve_admin_connection`, for a request at a time.
  unfoldable pub serve_admin_request :
      AdminServer A → Text → ℕ × Request → ProcessManager → ProcessManager × Option AdminResponse
  serve_admin_request s peer (now, req) m =
      let (m', answered) = handle_admin_request now req s.auth_token m in (m', some answered)

  -- `AdminServer::run`, with what `TcpListener::bind` gives.
  unfoldable pub run_admin :
      AdminServer A
      → Result Text (Unit {0})
      → List (Event Text (ℕ × Request))
      → ProcessManager
      → Result Text (Server Text ProcessManager AdminResponse)
  unfolding serve_admin_request accept_loop
  run_admin s (err e) events m = err e
  run_admin s (ok _) events m =
      ok (accept_loop (is_some s.tls_acceptor) (serve_admin_request s) (listen m) events)

-- A request without the token.
abbrev pub Denied : {A : Type 0} → AdminServer A → ℕ × Request → Type 0
Denied s (now, req) = LacksToken s.auth_token req

abbrev pub Hides : AdminResponse → Type 0
Hides r = HidesBackends r.body

serve_admin_request-IsQuiet :
    {A : Type 0} (s : AdminServer A) (peer : Text) (r : ℕ × Request) (m : ProcessManager)
    → Denied s r
    → IsQuiet Hides m (serve_admin_request s peer r m)
unfolding serve_admin_request
serve_admin_request-IsQuiet s peer (now, req) m denied =
    let r =
      handle_admin_request-Refused now req s.auth_token m
        (check_auth-LacksToken req s.auth_token denied) in
    (r.unchanged, r.hidden)

-- Where no request on any connection has the token as its Authorization header, alone or behind
-- "Bearer ", the admin server changes nothing in the manager and no answer lists the backends, whatever
-- connections and requests come.
pub run_admin-Denied :
    {A : Type 0} (s : AdminServer A) (bound : Result Text (Unit {0}))
    (es : List (Event Text (ℕ × Request))) (m : ProcessManager)
    (final : Server Text ProcessManager AdminResponse)
    → All (Asks (Denied s)) es
    → run_admin s bound es m ≡ ok final
    → Quiet Hides m final
unfolding run_admin
run_admin-Denied s (err e) es m final denied r = cc
run_admin-Denied s (ok _) es m final denied r = subst (Quiet Hides m) (ok-inj r) (
    accept_loop-Quiet (is_some s.tls_acceptor) (serve_admin_request s) Hides (Denied s) m
      (λ peer x d. serve_admin_request-IsQuiet s peer x m d) es denied)
