-- ===== src/Server/Redirects.antt =====
-- What a server that redirects to HTTPS answers.
use spawngate.Base.{
  ℕ, ◌≡◌, none, some, List, [], ◌∷◌, ok, ◌⊎◌, inl, inr, arith, if◌then◌else◌, Bool-cases, is_some,
  subst, ok-inj, Option-cases, refl, ap, ◌∙◌, true, false, unwrap_or, ◌++◌, ◌==◌, sym,
}
use spawngate.Base.Text.{Text, codes, before, strip_prefix, strip_prefix-some, text_eq}
use spawngate.Base.Lists.{All, get_elem?}
use spawngate.Base.Dict.{Dict, get}
use spawngate.Process.State.{ProcessManager}
use spawngate.Error.{Response, plain}
use spawngate.Proxy.Http.{Request, header_str}
use spawngate.Base.Number.{to_text}
use spawngate.Proxy.Hostname.{build_https_redirect, redirect_location}
use spawngate.Proxy.Request.{
  Context, Handled, acme_challenge_prefix, redirect_port, challenge_response, handle_request,
}
use spawngate.Proxy.Refusals.{Untouched, handle_request-redirects}
use spawngate.Main.Servers.{ProxyServer}
use spawngate.Main.Connections.{connection}
use spawngate.Server.{
  Event, Server, listen, accept_loop, accepted, requested, shutdown_changed, accept_failed,
  after_request,
}
use spawngate.Server.Loop.{
  Asks, IsQuiet, Quiet, accept_loop-Quiet, accept_loop-append, requested_open,
}
use spawngate.Server.Proxying.{Exchange, context_of, serve_request, run_proxy}

-- The answer is the key authorization of a challenge that the request asks for.
pub record IsChallenge (challenges : Dict Text) (req : Request) (r : Response) : Type 0 where
  pub token : Text
  pub key_authorization : Text
  pub asked : req.path ≡ codes "/.well-known/acme-challenge/" ++ token
  pub held : get token challenges ≡ some key_authorization
  pub status : r.status ≡ 200
  pub body : r.body ≡ plain key_authorization

-- The host that the request names, without a port.
abbrev pub host_of : Request → Text
host_of req = elim (header_str (codes "host") req) [
  | none ↦ codes "localhost"
  | some v ↦ before b':' v
]

-- The answer sends the client to the same host, path and query by HTTPS, with the port where it is not
-- the usual one.
pub record IsRedirect (port : ℕ) (req : Request) (r : Response) : Type 0 where
  pub status : r.status ≡ 301
  pub location :
      get (codes "location") r.headers
      ≡ some (
          codes "https://"
          ++ (host_of req
              ++ ((if port == 443 then [] else codes ":" ++ to_text port)
                  ++ unwrap_or req.path_and_query (codes "/"))))

build_https_redirect-IsRedirect :
    (port : ℕ) (req : Request) → IsRedirect port req (build_https_redirect req port)
unfolding build_https_redirect redirect_location get text_eq
build_https_redirect-IsRedirect port req = elim (Bool-cases (port == 443)) [
  | inl t ↦ record { status = refl; location = rw t refl }
  | inr f ↦ record { status = refl; location = rw f refl }
]

challenge_response-IsChallenge :
    (c : Context) (req : Request) (r : Response)
    → challenge_response c req ≡ some r
    → (challenges : Dict Text) × (c.acme_challenges ≡ some challenges)
      × IsChallenge challenges req r
unfolding challenge_response
challenge_response-IsChallenge c req r e = elim (Option-cases c.acme_challenges) [
  | inl a ↦ absurd (ground (arith, a))
  | inr (challenges, a) ↦ elim (Option-cases (strip_prefix acme_challenge_prefix req.path)) [
    | inl b ↦ absurd (ground (arith, a, b))
    | inr (token, b) ↦ elim (Option-cases (get token challenges)) [
      | inl d ↦ absurd (ground (arith, a, b, d))
      | inr (key, d) ↦ (
        challenges,
        a,
        record {
          token = token;
          key_authorization = key;
          asked = strip_prefix-some acme_challenge_prefix req.path token b;
          held = d;
          status = ground (arith, a, b, d);
          body = ground (arith, a, b, d);
        },
      )
    ]
  ]
]

-- The request was answered and changed nothing: with a challenge that the server has, or the redirect.
pub record TurnedAway {A : Type 0} (p : ProxyServer A) (port : ℕ) (x : Exchange)
    (m : ProcessManager) (h : Handled) : Type 0 where
  pub untouched : Untouched m h
  pub answer : Response
  pub answered : h.response ≡ some answer
  pub reply :
      ((p.acme_challenges ≡ true) × IsChallenge x.challenges x.request answer)
      ⊎ IsRedirect port x.request answer

connection-challenges :
    {A : Type 0} (p : ProxyServer A) (challenges held : Dict Text) (c : Context)
    → (connection p challenges c).acme_challenges ≡ some held
    → (p.acme_challenges ≡ true) × (held ≡ challenges)
unfolding connection
connection-challenges p challenges held c e = elim (Option-cases p.tls_acceptor) [
  | inr (a, t) ↦ absurd (ground (arith, t))
  | inl t ↦ (ground (arith, t), ground (arith, t))
]

request-challenged :
    (c : Context) (req : Request) (m : ProcessManager) {r : Response}
    → challenge_response c req ≡ some r
    → (handle_request c req m).response ≡ some r
unfolding handle_request
request-challenged c req m e = rw (handle_request, e) refl

request-redirected :
    (c : Context) (req : Request) (m : ProcessManager) {port : ℕ}
    → challenge_response c req ≡ none
    → redirect_port c ≡ some port
    → (handle_request c req m).response ≡ some (build_https_redirect req port)
unfolding handle_request
request-redirected c req m e f = rw (handle_request, e, f) refl

connection-redirect_port :
    {A : Type 0} (p : ProxyServer A) (challenges : Dict Text) (c : Context) {port : ℕ}
    → p.tls_acceptor ≡ none
    → p.https_redirect_port ≡ some port
    → ((connection p challenges c).is_tls ≡ false)
      × ((connection p challenges c).https_redirect_port ≡ some port)
      × (redirect_port (connection p challenges c) ≡ some port)
unfolding connection redirect_port
connection-redirect_port p challenges c e f =
    (ground (arith, e), ground (arith, e, f), ground (arith, e, f))

module _ {A : Type 0} (p : ProxyServer A) (port : ℕ) (m : ProcessManager)
    (plain_text : p.tls_acceptor ≡ none) (redirects : p.https_redirect_port ≡ some port)
    (client_ip : Text) (x : Exchange) where
  abbrev turned : Handled
  turned = handle_request (context_of p client_ip x) x.request m

  handle_request-TurnedAway : TurnedAway p port x m turned
  handle_request-TurnedAway =
      let c : Context = context_of p client_ip x in
      let (no_tls, port_set, redirected) =
        connection-redirect_port p x.challenges (record x.environment { client_ip = client_ip })
          plain_text redirects in
      let untouched : Untouched m turned =
        (handle_request-redirects c x.request m {port = port} no_tls port_set).0 in
      elim (Option-cases (challenge_response c x.request)) [
        | inr (r, e) ↦
            let (held, a, is) = challenge_response-IsChallenge c x.request r e in
            let (on, same) =
              connection-challenges p x.challenges held
                (record x.environment { client_ip = client_ip }) a in
            record {
              untouched = untouched;
              answer = r;
              answered = request-challenged c x.request m e;
              reply = inl (on, subst (λ d. IsChallenge d x.request r) same is);
            }
        | inl e ↦ record {
          untouched = untouched;
          answer = build_https_redirect x.request port;
          answered = request-redirected c x.request m e redirected;
          reply = inr (build_https_redirect-IsRedirect port x.request);
        }
      ]

  serve_request-turned : serve_request p client_ip x m ≡ (turned.manager, some turned)
  unfolding serve_request
  serve_request-turned =
      let answered : is_some turned.response ≡ true =
        ap is_some handle_request-TurnedAway.answered in
      rw (serve_request, answered) refl

  serve_request-IsQuiet : IsQuiet (λ _. Unit {0}) m (serve_request p client_ip x m)
  serve_request-IsQuiet = rw serve_request-turned (handle_request-TurnedAway.untouched.same, tt)

  after_request-turned :
      (n : ℕ) (s : Server Text ProcessManager Handled)
      → s.manager ≡ m
      → after_request
          (is_some p.tls_acceptor)
          (serve_request p)
          n
          s
          (serve_request p client_ip x s.manager)
        ≡ record s { answers = (n, turned) ∷ s.answers; manager = turned.manager }
  unfolding after_request
  after_request-turned n s same =
      let served : serve_request p client_ip x s.manager ≡ (turned.manager, some turned) =
        subst (λ k. serve_request p client_ip x k ≡ (turned.manager, some turned)) (sym same)
          serve_request-turned in
      rw served refl

all_asked : (es : List (Event Text Exchange)) → All (Asks (λ _. Unit {0})) es
all_asked [] = tt
all_asked (accepted peer handshake ∷ es) = (tt, all_asked es)
all_asked (accept_failed e ∷ es) = (tt, all_asked es)
all_asked (shutdown_changed stop ∷ es) = (tt, all_asked es)
all_asked (requested n x ∷ es) = (tt, all_asked es)

-- A server without TLS that redirects to HTTPS, after any connections and requests: the manager is as it
-- was at first. A request on an open connection then starts nothing, reaches no backend, changes nothing in
-- the manager and is answered, with the key authorization of an ACME challenge that the server has and
-- the request asks for, or with a redirect to the host, the path and the query of that request, by
-- HTTPS and with the port where it is not 443.
pub run_proxy-redirects :
    {A : Type 0} (p : ProxyServer A) (port : ℕ) (es : List (Event Text Exchange))
    (m : ProcessManager) (s : Server Text ProcessManager Handled) (n : ℕ) (ip : Text) (x : Exchange)
    → p.tls_acceptor ≡ none
    → p.https_redirect_port ≡ some port
    → run_proxy p (ok tt) es m ≡ ok s
    → get_elem? s.connections n ≡ some (some ip)
    → (final : Server Text ProcessManager Handled) × (h : Handled) × (run_proxy p
          (ok tt)
          (es ++ (requested n x ∷ []))
          m
        ≡ ok final)
      × (s.manager ≡ m)
      × (final.manager ≡ m)
      × (final.answers ≡ (n, h) ∷ s.answers)
      × TurnedAway p port x m h
unfolding run_proxy accept_loop
run_proxy-redirects p port es m s n ip x plain_text redirects r up =
    let q : Quiet (λ _. Unit {0}) m s = subst (Quiet (λ _. Unit {0}) m) (ok-inj r) (
      accept_loop-Quiet (is_some p.tls_acceptor) (serve_request p) (λ _. Unit {0}) (λ _. Unit {0}) m
        (λ client_ip y u. serve_request-IsQuiet p port m plain_text redirects client_ip y) es
        (all_asked es)) in
    let t = handle_request-TurnedAway p port m plain_text redirects ip x in
    (
      record s {
        answers = (n, turned p port m plain_text redirects ip x) ∷ s.answers;
        manager = (turned p port m plain_text redirects ip x).manager;
      },
      turned p port m plain_text redirects ip x,
      ap ok (
          accept_loop-append (is_some p.tls_acceptor) (serve_request p) (listen m) es
            (requested n x ∷ [])
          ∙ ap (λ k. accept_loop (is_some p.tls_acceptor) (serve_request p) k (requested n x ∷ []))
              (ok-inj r)
          ∙ requested_open (is_some p.tls_acceptor) (serve_request p) s n ip x up
          ∙ after_request-turned p port m plain_text redirects ip x n s q.manager),
      q.manager,
      t.untouched.same,
      refl,
      t,
    )
