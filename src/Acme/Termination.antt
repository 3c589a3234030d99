-- ===== src/Acme/Termination.antt =====
-- An order comes to an end.
use spawngate.Base.{ℕ, zero, suc, ◌+◌, ◌≤◌, ◌≡◌, ◌≢◌, refl, false, List, [], ◌∷◌, Result, arith}
use spawngate.Base.Text.{Text, codes}
use spawngate.Base.Lists.{is_empty}
use spawngate.Config.{AcmeChallengeType, AcmeConfig}
use spawngate.Acme.Library.{
  AuthorizationStatus, Authorization, Challenge, KeyAuthorization, OrderStatus, processing, Library,
}
use spawngate.Acme.Action.{Action, ◌>>=◌, try}
use spawngate.Acme.Challenges.{State}
use spawngate.Acme.Order.{
  context, create_tls_alpn01_cert, call, pause, set_up, clean_up, wait_authorization, fulfil,
  challenge_of, authorize, authorize_all, next_order, judge_order, wait_order, wait_certificate,
}
use spawngate.Acme.Certificate.{acme_identifier}
use spawngate.Acme.Manager.{first_domain, finalize_order, order_for, obtain_certificate}
use spawngate.Acme.Halting.{
  Verdict, Halts, bind-Halts, try-Halts, Anything, Settles, call-Halts, Again, counted-Halts,
  wait_certificate-Halts, wait_authorization-Halts,
}

module _ {W O K N C : Type 0} (lib : Library W O K N C) where
  from_call :
      {A B : Type 0} (Q : B → Type 0) (f : W → W × Result Text A) (g : A → Action (State W K) B)
      → ((a : A) → Halts Q (g a))
      → Halts Q (call lib f >>= g)
  from_call Q f g q =
      bind-Halts Anything Q (call lib f) g (call-Halts lib Anything f λ w a h. tt) λ a u. q a

  from_try :
      {A B : Type 0} (Q : B → Type 0) (r : Result Text A) (g : A → Action (State W K) B)
      → ((a : A) → Halts Q (g a))
      → Halts Q (try r >>= g)
  from_try Q r g q = bind-Halts Anything Q (try r) g (try-Halts Anything r λ a h. tt) λ a u. q a

  create_tls_alpn01_cert-Halts :
      (domain digest : Text) → Halts Anything (create_tls_alpn01_cert lib domain digest)
  unfolding create_tls_alpn01_cert
  create_tls_alpn01_cert-Halts domain digest = from_try _ (lib.new_params (domain ∷ [])) _ λ params.
      from_call _ lib.generate_key _ λ key_pair.
        from_call _ (lib.self_signed (acme_identifier digest params) key_pair) _ λ cert.
          from_try _
            (context (codes "Failed to serialize private key: ") (lib.private_key_of key_pair.der))
            _
            λ key_der.
              from_try _
                (context (codes "Failed to create signing key: ") (lib.any_supported_type key_der))
                _ λ signing_key s. tt

  set_up-Halts :
      (kind : AcmeChallengeType) (domain : Text) (c : Challenge) (ka : KeyAuthorization)
      → Halts Anything (set_up lib kind domain c ka)
  unfolding set_up
  set_up-Halts AcmeChallengeType.http01 domain c ka = λ s. tt
  set_up-Halts AcmeChallengeType.tls_alpn01 domain c ka =
      bind-Halts Anything Anything (create_tls_alpn01_cert lib domain ka.digest) _
        (create_tls_alpn01_cert-Halts domain ka.digest) λ cert u s. tt

  clean_up-Halts :
      (kind : AcmeChallengeType) (domain : Text) (c : Challenge)
      → Halts Anything (clean_up lib kind domain c)
  unfolding clean_up
  clean_up-Halts AcmeChallengeType.http01 domain c = λ s. tt
  clean_up-Halts AcmeChallengeType.tls_alpn01 domain c = λ s. tt

  first_domain-Halts : (ds : List Text) → is_empty ds ≡ false → Halts Anything (first_domain lib ds)
  unfolding first_domain
  first_domain-Halts [] h = absurd (ground (arith, h))
  first_domain-Halts (d ∷ ds) h = λ s. tt

  finalize_order-Halts :
      (fuel : ℕ) (domains : List Text) (order : O)
      → 31 ≤ fuel
      → is_empty domains ≡ false
      → Halts Anything (finalize_order lib fuel domains order)
  unfolding finalize_order
  finalize_order-Halts fuel domains order l n = from_try _ (lib.new_params domains) _ λ params.
      bind-Halts Anything Anything (first_domain lib domains) _ (first_domain-Halts domains n)
        λ name v. from_call _ lib.generate_key _ λ key.
          from_try _ (lib.serialize_request (record params { common_names = name ∷ [] }) key) _
            λ csr. from_call _ (lib.finalize order csr) _ λ finalized.
              bind-Halts Anything Anything (wait_certificate lib fuel 0 finalized) _
                (wait_certificate-Halts lib fuel 0 finalized (omega arith) (omega arith))
                λ chain a.
                  from_try _
                    (context (codes "Failed to parse private key: ") (lib.private_key_of key.der)) _
                    λ der s. tt

  module _ (Open : O → Type 0) (t : Settles lib Open) where
    next_order-Halts :
        (again : O → Action (State W K) O) (order : O)
        → Open order
        → ((o : O) → Open o → Halts Open (again o))
        → Halts Open (next_order lib again order)
    unfolding next_order pause
    next_order-Halts again order o q =
        bind-Halts Anything Open (pause lib 2) _ (λ s. tt)
          λ u v.
            bind-Halts Open Open (call lib (lib.refresh order)) _
              (call-Halts lib Open (lib.refresh order) λ w a h. t.refreshed order a w o h) q

    judge_order-Halts :
        (fuel n : ℕ) (order : O) (again : ℕ → O → Action (State W K) O) (status : OrderStatus)
        → Open order
        → status ≢ processing
        → n ≤ 30
        → 31 ≤ suc fuel + n
        → ((o : O) → Open o → Again lib Open fuel (λ k. again k o))
        → Halts Open (judge_order lib again n order status)
    unfolding judge_order
    judge_order-Halts fuel n order again OrderStatus.ready o c l e q = λ s. o
    judge_order-Halts fuel n order again OrderStatus.pending o c l e q =
        counted-Halts lib Open fuel n _ (λ k. next_order lib (again k) order) l e
          λ k a b. next_order-Halts (again k) order o λ r p. q r p k a b
    judge_order-Halts fuel n order again OrderStatus.invalid o c l e q = λ s. tt
    judge_order-Halts fuel n order again OrderStatus.valid o c l e q = λ s. o
    judge_order-Halts fuel n order again OrderStatus.processing o c l e q = absurd (c refl)

    wait_order-Halts :
        (fuel n : ℕ) (order : O)
        → Open order
        → n ≤ 30
        → 31 ≤ fuel + n
        → Halts Open (wait_order lib fuel n order)
    unfolding wait_order
    wait_order-Halts zero n order o l e = absurd (omega arith)
    wait_order-Halts (suc fuel) n order o l e =
        judge_order-Halts fuel n order (λ k r. wait_order lib fuel k r) (lib.order_status order) o
          (t.not_processing order o) l e λ r p k a b. wait_order-Halts fuel k r p a b

    fulfil-Halts :
        (fuel : ℕ) (kind : AcmeChallengeType) (domain : Text) (order : O) (c : Challenge)
        → 31 ≤ fuel
        → Open order
        → Halts Open (fulfil lib fuel kind domain order c)
    unfolding fulfil
    fulfil-Halts fuel kind domain order c l o =
        bind-Halts Anything Open (set_up lib kind domain c (lib.key_authorization order c)) _
          (set_up-Halts kind domain c _)
          λ u v. from_call _ (lib.set_challenge_ready order c.url) _ λ x.
            bind-Halts Open Open (wait_authorization lib fuel 0 domain order) _
              (wait_authorization-Halts lib Open t fuel 0 domain order o (omega arith)
                (omega arith))
              λ r p.
                bind-Halts Anything Open (clean_up lib kind domain c) _
                  (clean_up-Halts kind domain c) λ z a s. p

    attempt-Halts :
        (fuel : ℕ) (kind : AcmeChallengeType) (order : O) (a : Authorization)
        → 31 ≤ fuel
        → Open order
        → Halts Open
            (try (challenge_of lib kind a) >>= λ c. fulfil lib fuel kind a.identifier order c)
    attempt-Halts fuel kind order a l o =
        from_try _ (challenge_of lib kind a) _ λ c. fulfil-Halts fuel kind a.identifier order c l o

    authorize-Halts :
        (fuel : ℕ) (kind : AcmeChallengeType) (order : O) (a : Authorization)
        (status : AuthorizationStatus)
        → 31 ≤ fuel
        → Open order
        → Halts Open (authorize lib fuel kind order a status)
    unfolding authorize
    authorize-Halts fuel kind order a AuthorizationStatus.valid l o = λ s. o
    authorize-Halts fuel kind order a AuthorizationStatus.pending l o =
        attempt-Halts fuel kind order a l o
    authorize-Halts fuel kind order a AuthorizationStatus.invalid l o =
        attempt-Halts fuel kind order a l o
    authorize-Halts fuel kind order a (AuthorizationStatus.other_status x) l o =
        attempt-Halts fuel kind order a l o

    authorize_all-Halts :
        (fuel : ℕ) (kind : AcmeChallengeType) (authz : List Authorization) (order : O)
        → 31 ≤ fuel
        → Open order
        → Halts Open (authorize_all lib fuel kind authz order)
    unfolding authorize_all
    authorize_all-Halts fuel kind [] order l o = λ s. o
    authorize_all-Halts fuel kind (a ∷ authz) order l o =
        bind-Halts Open Open (authorize lib fuel kind order a a.status) _
          (authorize-Halts fuel kind order a a.status l o)
          λ next p. authorize_all-Halts fuel kind authz next l p

    order_for-Halts :
        (fuel : ℕ) (config : AcmeConfig) (account : N)
        → 31 ≤ fuel
        → is_empty config.domains ≡ false
        → Halts Anything (order_for lib fuel config account)
    unfolding order_for
    order_for-Halts fuel config account l n =
        bind-Halts Open Anything (call lib (lib.new_order account config.domains)) _
          (call-Halts lib Open (lib.new_order account config.domains)
            λ w o h. t.placed account config.domains w o h)
          λ order o. from_call _ (lib.authorizations order) _ λ authz.
            bind-Halts Open Anything (authorize_all lib fuel config.challenge_type authz order) _
              (authorize_all-Halts fuel config.challenge_type authz order l o)
              λ r p.
                bind-Halts Open Anything (wait_order lib fuel 0 r) _
                  (wait_order-Halts fuel 0 r p (omega arith) (omega arith))
                  λ q v. finalize_order-Halts fuel config.domains q l n

    -- With 31 rounds for each of its loops, `obtain_certificate` returns a certificate or an error, for a
    -- configuration that names a domain and a server that reports authorizations as pending, valid or
    -- invalid only, and no order as processing before it is finalized.
    pub obtain_certificate-Halts :
        (fuel : ℕ) (account : N) (s : State W K)
        → 31 ≤ fuel
        → is_empty s.manager.config.domains ≡ false
        → Verdict Anything (obtain_certificate lib fuel account s).1
    unfolding obtain_certificate
    obtain_certificate-Halts fuel account s l n =
        order_for-Halts fuel s.manager.config account l n s
