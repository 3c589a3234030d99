-- ===== src/Acme/Serving.antt =====
-- Which certificate the manager serves.
use spawngate.Base.{ℕ, refl, ap, Option, List, [], ◌∷◌, Bool-cases, inl, inr}
use spawngate.Base.Text.{Text, codes}
use spawngate.Config.{AcmeChallengeType, AcmeConfig}
use spawngate.Acme.Library.{
  AuthorizationStatus, Authorization, Challenge, KeyAuthorization, Library,
}
use spawngate.Acme.Action.{Action}
use spawngate.Acme.Challenges.{
  State, AcmeManager, CertifiedKey, set_challenge, remove_challenge, set_challenge_cert,
  remove_challenge_cert,
}
use spawngate.Acme.Order.{
  create_tls_alpn01_cert, set_up, clean_up, fulfil, authorize, authorize_all, wait_authorization,
  wait_order,
}
use spawngate.Acme.Manager.{
  finalize_order, order_for, obtain_certificate, get_or_create_account, load_account,
  create_account,
}
use spawngate.Acme.Kept.{
  Keeps, KeepsManager, Keeps-bind, create_tls_alpn01_cert-KeepsManager,
  wait_authorization-KeepsManager, wait_order-KeepsManager, finalize_order-KeepsManager,
}

-- The certificate that TLS connections are served, the stored one, and the one sent to watchers.
abbrev pub Served : Type 0 → Type 0
Served K = Option (CertifiedKey K) × Option (List Text × Text) × Option (CertifiedKey K)

abbrev pub served : {W K : Type 0} → State W K → Served K
served s = (s.manager.tls_alpn01_resolver.regular_cert, s.manager.current_cert, s.manager.cert_tx)

module _ {W O K N C : Type 0} (lib : Library W O K N C) where
  abbrev pub KeepsServed : {A : Type 0} → Action (State W K) A → Type 0
  KeepsServed m = Keeps (λ (s : State W K). served s) m

  by_manager : {A : Type 0} (m : Action (State W K) A) → KeepsManager lib m → KeepsServed m
  by_manager m k s =
      ap (λ (x : AcmeManager K). (x.tls_alpn01_resolver.regular_cert, x.current_cert, x.cert_tx))
        (k s)

  set_up-KeepsServed :
      (kind : AcmeChallengeType) (domain : Text) (challenge : Challenge) (ka : KeyAuthorization)
      → KeepsServed (set_up lib kind domain challenge ka)
  unfolding set_up set_challenge set_challenge_cert
  set_up-KeepsServed AcmeChallengeType.http01 domain challenge ka = λ s. refl
  set_up-KeepsServed AcmeChallengeType.tls_alpn01 domain challenge ka =
      Keeps-bind _ _ _
        (by_manager (create_tls_alpn01_cert lib domain ka.digest)
          (create_tls_alpn01_cert-KeepsManager lib domain ka.digest))
        λ cert s. refl

  clean_up-KeepsServed :
      (kind : AcmeChallengeType) (domain : Text) (challenge : Challenge)
      → KeepsServed (clean_up lib kind domain challenge)
  unfolding clean_up remove_challenge remove_challenge_cert
  clean_up-KeepsServed AcmeChallengeType.http01 domain challenge = λ s. refl
  clean_up-KeepsServed AcmeChallengeType.tls_alpn01 domain challenge = λ s. refl

  fulfil-KeepsServed :
      (fuel : ℕ) (kind : AcmeChallengeType) (domain : Text) (order : O) (challenge : Challenge)
      → KeepsServed (fulfil lib fuel kind domain order challenge)
  unfolding fulfil
  fulfil-KeepsServed fuel kind domain order challenge =
      Keeps-bind _ _ _ (set_up-KeepsServed kind domain challenge _) λ u.
        Keeps-bind _ _ _ (λ s. refl)
          λ v.
            Keeps-bind _ _ _
              (by_manager (wait_authorization lib fuel 0 domain order)
                (wait_authorization-KeepsManager lib fuel 0 domain order))
              λ r. Keeps-bind _ _ _ (clean_up-KeepsServed kind domain challenge) λ w s. refl

  authorize-KeepsServed :
      (fuel : ℕ) (kind : AcmeChallengeType) (order : O) (a : Authorization)
      (status : AuthorizationStatus)
      → KeepsServed (authorize lib fuel kind order a status)
  unfolding authorize
  authorize-KeepsServed fuel kind order a AuthorizationStatus.valid = λ s. refl
  authorize-KeepsServed fuel kind order a AuthorizationStatus.pending =
      Keeps-bind _ _ _ (λ s. refl) λ c. fulfil-KeepsServed fuel kind a.identifier order c
  authorize-KeepsServed fuel kind order a AuthorizationStatus.invalid =
      Keeps-bind _ _ _ (λ s. refl) λ c. fulfil-KeepsServed fuel kind a.identifier order c
  authorize-KeepsServed fuel kind order a (AuthorizationStatus.other_status name) =
      Keeps-bind _ _ _ (λ s. refl) λ c. fulfil-KeepsServed fuel kind a.identifier order c

  authorize_all-KeepsServed :
      (fuel : ℕ) (kind : AcmeChallengeType) (authz : List Authorization) (order : O)
      → KeepsServed (authorize_all lib fuel kind authz order)
  unfolding authorize_all
  authorize_all-KeepsServed fuel kind [] order = λ s. refl
  authorize_all-KeepsServed fuel kind (a ∷ authz) order =
      Keeps-bind _ _ _ (authorize-KeepsServed fuel kind order a a.status)
        λ next. authorize_all-KeepsServed fuel kind authz next

  order_for-KeepsServed :
      (fuel : ℕ) (config : AcmeConfig) (account : N)
      → KeepsServed (order_for lib fuel config account)
  unfolding order_for
  order_for-KeepsServed fuel config account =
      Keeps-bind _ _ _ (λ s. refl)
        λ order.
          Keeps-bind _ _ _ (λ s. refl)
            λ authz.
              Keeps-bind _ _ _ (authorize_all-KeepsServed fuel config.challenge_type authz order)
                λ o.
                  Keeps-bind _ _ _
                    (by_manager (wait_order lib fuel 0 o) (wait_order-KeepsManager lib fuel 0 o))
                    λ r.
                      by_manager (finalize_order lib fuel config.domains r)
                        (finalize_order-KeepsManager lib fuel config.domains r)

  pub obtain_certificate-KeepsServed :
      (fuel : ℕ) (account : N) → KeepsServed (obtain_certificate lib fuel account)
  unfolding obtain_certificate
  obtain_certificate-KeepsServed fuel account s =
      order_for-KeepsServed fuel s.manager.config account s

  load_account-KeepsServed : (path : Text) → KeepsServed (load_account lib path)
  unfolding load_account
  load_account-KeepsServed path s =
      Keeps-bind (λ (t : State W K). served t) _ _ (λ t. refl)
        (λ text. Keeps-bind _ _ _ (λ t. refl) λ credentials t. refl) s

  create_account-KeepsServed :
      (path : Text) (config : AcmeConfig) (dir : Text)
      → KeepsServed (create_account lib path config dir)
  unfolding create_account
  create_account-KeepsServed path config dir =
      Keeps-bind _ _ _ (λ s. refl)
        λ email.
          Keeps-bind _ _ _ (λ s. refl)
            λ made.
              Keeps-bind _ _ _ (λ s. refl)
                λ u. Keeps-bind _ _ _ (λ s. refl) λ text. Keeps-bind _ _ _ (λ s. refl) λ v s. refl

  pub get_or_create_account-KeepsServed : KeepsServed (get_or_create_account lib)
  unfolding get_or_create_account
  get_or_create_account-KeepsServed s =
      let path = lib.join s.manager.cache_dir (codes "account.json") in
      elim (Bool-cases (lib.exists path s.world)) [
        | inl e ↦ rw (get_or_create_account, e) (load_account-KeepsServed path s)
        | inr e ↦
            rw (get_or_create_account, e)
              (create_account-KeepsServed path s.manager.config s.manager.cache_dir s)
      ]
