-- ===== src/Main/Wiring.antt =====
-- Which servers the program starts.
use spawngate.Base.{
  ◌<◌, ◌≡◌, ◌↔◌, refl, Bool, true, false, ◌&&◌, not, Option, none, some, ◌++◌, Result, ok, arith,
  if◌then◌else◌, ltb, is_some, Result-cases, Bool-cases, inl, inr,
}
use spawngate.Base.Text.{Text, codes}
use spawngate.Config.{
  http01, tls_alpn01, ServerConfig, Config, acme_enabled, tls_enabled, http_port, https_port,
}
use spawngate.Acme.Challenges.{AcmeManager}
use spawngate.Acme.Manager.{new_manager}
use spawngate.Acme.Order.{context}
use spawngate.Main.Tls.{
  load_files, TlsAcceptor, Host, load_tls, with_acme, with_files, resolver_for, acceptor_of,
}
use spawngate.Main.Servers.{
  ProxyServer, Servers, with_pool_config, with_acme_challenges, with_https_redirect, start,
  start_http, start_https, http_server, address, has_challenges,
}

-- The certificate comes from an ACME server by HTTP-01.
unfoldable pub by_http01 : ServerConfig → Bool
unfolding acme_enabled
by_http01 s = acme_enabled s && elim s.acme.challenge_type [ http01 ↦ true | tls_alpn01 ↦ false ]

module _ (host : Host) (K : Type 0) where
  unfoldable pub made : ServerConfig → Result Text (Unit {0})
  made s =
      context (codes "Failed to create ACME cache directory '" ++ (s.acme.cache_dir ++ codes "': "))
        (host.create_dir_all s.acme.cache_dir)

  with_acme-acceptor :
      (s : ServerConfig) (a : Option TlsAcceptor) (m : Option (AcmeManager K))
      → with_acme host K s.acme ≡ ok (a, m)
      → a ≡ resolver_for s.acme.challenge_type
  unfolding with_acme made
  with_acme-acceptor s a m e = elim (Result-cases (made s)) [
    | inr (x, f) ↦ absurd (ground (arith, f))
    | inl (u, f) ↦ elim (Result-cases (new_manager {K = K} host.paths s.acme)) [
      | inr (x, g) ↦ absurd (ground (arith, f, g))
      | inl (manager, g) ↦ ground (arith, f, g, e)
    ]
  ]

  with_files-acceptor :
      (s : ServerConfig) (a : Option TlsAcceptor) (m : Option (AcmeManager K))
      → with_files host K s ≡ ok (a, m)
      → is_some a ≡ true
  unfolding with_files
  with_files-acceptor s a m e = elim (Result-cases (load_files host s.tls_cert s.tls_key)) [
    | inr (x, f) ↦ absurd (ground (arith, f))
    | inl (loaded, f) ↦ elim (Result-cases (acceptor_of host loaded)) [
      | inr (x, g) ↦ absurd (ground (arith, f, g))
      | inl (acceptor, g) ↦ ground (arith, f, g, e)
    ]
  ]

  acme_enabled-tls_enabled : (s : ServerConfig) → acme_enabled s ≡ true → tls_enabled s ≡ true
  unfolding tls_enabled
  acme_enabled-tls_enabled s e = ground (arith, e)

  load_tls-acceptor :
      (s : ServerConfig) (a : Option TlsAcceptor) (m : Option (AcmeManager K))
      → load_tls host K s ≡ ok (a, m)
      → is_some a ≡ (tls_enabled s && not (by_http01 s))
  unfolding load_tls by_http01 resolver_for
  load_tls-acceptor s a m e = elim (Bool-cases (acme_enabled s)) [
    | inl f ↦
        ground
          (arith, f, acme_enabled-tls_enabled s f, with_acme-acceptor s a m (rw (load_tls, f) at e))
    | inr f ↦ elim (Bool-cases (tls_enabled s)) [
      | inl g ↦ ground (arith, f, g, with_files-acceptor s a m (rw (load_tls, f, g) at e))
      | inr g ↦ ground (arith, f, g, e)
    ]
  ]

not_some : {A : Type 0} (o : Option A) → is_some o ≡ false → o ≡ none
not_some none e = refl
not_some (some a) e = absurd (ground (arith, e))

start_https-some :
    {A : Type 0} (parse_addr : Text → Result Text A) (s : ServerConfig) (a : Option TlsAcceptor)
    (https : Option (ProxyServer A))
    → start_https parse_addr s a ≡ ok https
    → is_some https ≡ (is_some a && ltb 0 (https_port s))
unfolding start_https
start_https-some parse_addr s none https e = ground (arith, e)
start_https-some parse_addr s (some acceptor) https e =
    elim (Result-cases
      (address parse_addr (codes "Invalid HTTPS bind address: ") s.bind (https_port s))) [
        | inr (x, f) ↦ ground (arith, f, e)
        | inl (addr, f) ↦ ground (arith, f, e)
      ]

start_http-redirect :
    {A : Type 0} (parse_addr : Text → Result Text A) (s : ServerConfig) (challenges : Bool)
    (http : Option (ProxyServer A))
    → start_http parse_addr s challenges ≡ ok http
    → 0 < http_port s
    → (p : ProxyServer A) × (http ≡ some p)
      × (p.https_redirect_port
          ≡ (if s.force_https && ltb 0 (https_port s) then some (https_port s) else none))
unfolding start_http http_server with_pool_config with_acme_challenges with_https_redirect
start_http-redirect parse_addr s challenges http e l =
    elim (Result-cases
      (address parse_addr (codes "Invalid HTTP bind address: ") s.bind (http_port s))) [
        | inr (x, f) ↦ absurd (ground (arith, f, e, l))
        | inl (addr, f) ↦ (http_server s challenges addr, ground (arith, f, e, l), ground arith)
      ]

module _ {A : Type 0} (host : Host) (parse_addr : Text → Result Text A) (K : Type 0) where
  -- The parts of a program that started.
  pub record Started (config : Config) (servers : Servers A K) : Type 0 where
    pub acceptor : Option TlsAcceptor
    pub acme : Option (AcmeManager K)
    pub tls : load_tls host K config.server ≡ ok (acceptor, acme)
    pub http :
        start_http parse_addr config.server (has_challenges config.server acme) ≡ ok servers.http
    pub https : start_https parse_addr config.server acceptor ≡ ok servers.https

  admin : Config → Result Text A
  admin config =
      address parse_addr (codes "Invalid admin bind address: ") (codes "127.0.0.1")
        config.server.admin_port

  pub start-Started :
      (config : Config) (token : Text) (servers : Servers A K)
      → start parse_addr K host config token ≡ ok servers
      → Started config servers
  unfolding start admin
  start-Started config token servers e = elim (Result-cases (load_tls host K config.server)) [
    | inr (x, f) ↦ absurd (ground (arith, f, e))
    | inl ((a, m), f) ↦
        elim (Result-cases (start_http parse_addr config.server (has_challenges config.server m))) [
          | inr (x, g) ↦ absurd (ground (arith, f, g, e))
          | inl (http, g) ↦ elim (Result-cases (start_https parse_addr config.server a)) [
            | inr (x, h) ↦ absurd (ground (arith, f, g, h, e))
            | inl (https, h) ↦ elim (Result-cases (admin config)) [
              | inr (x, k) ↦ absurd (ground (arith, f, g, h, k, e))
              | inl (addr, k) ↦
                  let same : (servers.http ≡ http) × (servers.https ≡ https) =
                    (ground (arith, f, g, h, k, e), ground (arith, f, g, h, k, e)) in
                  record {
                    acceptor = a;
                    acme = m;
                    tls = f;
                    http = ground (arith, g, same.0);
                    https = ground (arith, h, same.1);
                  }
            ]
          ]
        ]
  ]

  -- A program that started serves HTTPS exactly when the HTTPS port is not 0 and its certificate does not
  -- come by HTTP-01.
  pub start-https :
      (config : Config) (token : Text) (servers : Servers A K)
      → start parse_addr K host config token ≡ ok servers
      → (is_some servers.https ≡ true)
        ↔ ((0 < https_port config.server) × (by_http01 config.server ≡ false))
  unfolding https_port
  start-https config token servers e =
      let t = start-Started config token servers e in
      let some_https = start_https-some parse_addr config.server t.acceptor servers.https t.https in
      let some_acceptor = load_tls-acceptor host K config.server t.acceptor t.acme t.tls in
      (
        λ q. (ground (arith, some_https, some_acceptor), ground (arith, some_https, some_acceptor)),
        λ q. ground (arith, some_https, some_acceptor, q.0, q.1),
      )

  -- With a certificate by HTTP-01 and `force_https`, a program that started redirects HTTP to the HTTPS
  -- port, where no server of it listens.
  pub start-redirect :
      (config : Config) (token : Text) (servers : Servers A K)
      → start parse_addr K host config token ≡ ok servers
      → by_http01 config.server ≡ true
      → config.server.force_https ≡ true
      → 0 < http_port config.server
      → 0 < https_port config.server
      → (servers.https ≡ none)
        × ((p : ProxyServer A) × (servers.http ≡ some p)
            × (p.https_redirect_port ≡ some (https_port config.server)))
  start-redirect config token servers e b f l l' =
      let t = start-Started config token servers e in
      let some_https = start_https-some parse_addr config.server t.acceptor servers.https t.https in
      let some_acceptor = load_tls-acceptor host K config.server t.acceptor t.acme t.tls in
      let (p, q, r) =
        start_http-redirect parse_addr config.server (has_challenges config.server t.acme)
          servers.http t.http l in
      (
        not_some servers.https (ground (arith, some_https, some_acceptor, b)),
        (p, q, ground (arith, r, f, l')),
      )
