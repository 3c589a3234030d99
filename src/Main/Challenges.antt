-- ===== src/Main/Challenges.antt =====
-- A program with a certificate by HTTP-01, as the ACME server sees it.
use spawngate.Base.{
  ℕ, ◌≡◌, sym, ap, subst, ◌∙◌, Bool, true, Option, none, some, [], ◌∷◌, ◌++◌, Result, ok, arith,
  ltb, is_some, Result-cases, Bool-cases, inl, inr,
}
use spawngate.Base.Text.{Text, codes}
use spawngate.Base.Dict.{Dict}
use spawngate.Error.{plain}
use spawngate.Config.{AcmeChallengeType, ServerConfig, Config, acme_enabled, http_port}
use spawngate.Process.State.{ProcessManager}
use spawngate.Proxy.Http.{Request}
use spawngate.Proxy.Request.{Context, acme_challenge_prefix, handle_request, reply_with}
use spawngate.Acme.Library.{Challenge, KeyAuthorization, Library}
use spawngate.Acme.Challenges.{AcmeManager, State}
use spawngate.Acme.Manager.{new_manager}
use spawngate.Acme.Answers.{waiting, waiting-answered}
use spawngate.Main.Tls.{TlsAcceptor, Host, load_tls, with_acme}
use spawngate.Main.Servers.{
  ProxyServer, Servers, with_pool_config, with_acme_challenges, with_https_redirect, start,
  start_http, http_server, address, has_challenges,
}
use spawngate.Main.Wiring.{by_http01, start-Started, made}
use spawngate.Main.Connections.{connection}

by_http01-acme_enabled : (s : ServerConfig) → by_http01 s ≡ true → acme_enabled s ≡ true
unfolding by_http01
by_http01-acme_enabled s e = ground (arith, e)

has_challenges-some :
    {K : Type 0} (s : ServerConfig) (m : Option (AcmeManager K))
    → by_http01 s ≡ true
    → is_some m ≡ true
    → has_challenges s m ≡ true
unfolding has_challenges by_http01
has_challenges-some s none b e = absurd (ground (arith, e))
has_challenges-some s (some m) b e = ground (arith, b)

module _ (host : Host) (K : Type 0) where
  with_acme-manager :
      (s : ServerConfig) (a : Option TlsAcceptor) (m : Option (AcmeManager K))
      → with_acme host K s.acme ≡ ok (a, m)
      → is_some m ≡ true
  unfolding with_acme made
  with_acme-manager s a m e = elim (Result-cases (made host K s)) [
    | inr (x, f) ↦ absurd (ground (arith, f))
    | inl (u, f) ↦ elim (Result-cases (new_manager {K = K} host.paths s.acme)) [
      | inr (x, g) ↦ absurd (ground (arith, f, g))
      | inl (manager, g) ↦ ground (arith, f, g, e)
    ]
  ]

  load_tls-manager :
      (s : ServerConfig) (a : Option TlsAcceptor) (m : Option (AcmeManager K))
      → load_tls host K s ≡ ok (a, m)
      → acme_enabled s ≡ true
      → is_some m ≡ true
  unfolding load_tls
  load_tls-manager s a m e f = with_acme-manager s a m (rw (load_tls, f) at e)

abbrev IsPlain : {A : Type 0} → Bool → ProxyServer A → Type 0
IsPlain challenges p = (p.tls_acceptor ≡ none) × (p.acme_challenges ≡ challenges)

http_server-IsPlain :
    {A : Type 0} (s : ServerConfig) (challenges : Bool) (addr : A)
    → IsPlain challenges (http_server s challenges addr)
unfolding http_server with_pool_config with_acme_challenges with_https_redirect
http_server-IsPlain s challenges addr = (ground arith, ground arith)

start_http-IsPlain :
    {A : Type 0} (parse_addr : Text → Result Text A) (s : ServerConfig) (challenges : Bool)
    (p : ProxyServer A)
    → start_http parse_addr s challenges ≡ ok (some p)
    → IsPlain challenges p
unfolding start_http
start_http-IsPlain parse_addr s challenges p e =
    elim (Result-cases
      (address parse_addr (codes "Invalid HTTP bind address: ") s.bind (http_port s))) [
        | inr (x, f) ↦ elim (Bool-cases (ltb 0 (http_port s))) [
          | inl g ↦ absurd (ground (arith, f, g, e))
          | inr g ↦ absurd (ground (arith, f, g, e))
        ]
        | inl (addr, f) ↦ elim (Bool-cases (ltb 0 (http_port s))) [
          | inl g ↦
              let same : http_server s challenges addr ≡ p = ground (arith, f, g, e) in
              subst (λ x. IsPlain challenges x) same (http_server-IsPlain s challenges addr)
          | inr g ↦ absurd (ground (arith, f, g, e))
        ]
      ]

connection-IsPlain :
    {A : Type 0} (p : ProxyServer A) (challenges : Dict Text) (c : Context)
    → IsPlain true p
    → (connection p challenges c).acme_challenges ≡ some challenges
unfolding connection
connection-IsPlain p challenges c (e, f) = ground (arith, e, f)

module _ {W O K N C A : Type 0} (lib : Library W O K N C) (host : Host)
    (parse_addr : Text → Result Text A) where
  -- A program that started with a certificate by HTTP-01 has its HTTP server answer the challenges of its
  -- manager: on a connection to that server, a request for the path of a token that was set up is answered
  -- with the key authorization, in every round of the wait for the authorization, whatever the host is and
  -- also where HTTP is redirected, and no backend is started.
  pub start-answers :
      (config : Config) (token : Text) (servers : Servers A K) (p : ProxyServer A) (domain : Text)
      (c : Challenge) (ka : KeyAuthorization) (rounds : ℕ) (order : O) (s : State W K)
      (ctx : Context) (req : Request) (m : ProcessManager)
      → start parse_addr K host config token ≡ ok servers
      → by_http01 config.server ≡ true
      → servers.http ≡ some p
      → req.path ≡ acme_challenge_prefix ++ c.token
      → handle_request
          (connection p
            (waiting lib domain c ka rounds AcmeChallengeType.http01 order s).http01_challenges
            ctx)
          req
          m
        ≡ reply_with m (record {
          status = 200;
          headers = (codes "content-type", codes "text/plain") ∷ [];
          body = plain ka.text;
        })
  start-answers config token servers p domain c ka rounds order s ctx req m e b h path =
      let t = start-Started host parse_addr K config token servers e in
      let has = has_challenges-some config.server t.acme b (
        load_tls-manager host K config.server t.acceptor t.acme t.tls
          (by_http01-acme_enabled config.server b)) in
      let plain =
        start_http-IsPlain parse_addr config.server true p
          (ap (λ x. start_http parse_addr config.server x) (sym has) ∙ (t.http ∙ ap ok h)) in
      waiting-answered lib domain c ka rounds order s _ req m (connection-IsPlain p _ ctx plain)
        path
