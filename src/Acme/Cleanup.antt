-- ===== src/Acme/Cleanup.antt =====
-- What is left of the challenges when a certificate was obtained.
use spawngate.Base.{
  ℕ, ◌≡◌, refl, sym, subst, false, none, List, [], ◌∷◌, arith, Bool-cases, inl, inr,
}
use spawngate.Base.Text.{Text, text_eq}
use spawngate.Base.Dict.{Dict, get, remove, get-insert, get-remove}
use spawngate.Config.{AcmeChallengeType, AcmeConfig}
use spawngate.Acme.Library.{
  AuthorizationStatus, Authorization, Challenge, KeyAuthorization, Library,
}
use spawngate.Acme.Action.{Outcome, done, failed, panicked, unfinished, Action, after, ◌>>=◌, try}
use spawngate.Acme.Challenges.{
  State, AcmeManager, get_challenge, set_challenge, remove_challenge, set_challenge_cert,
  remove_challenge_cert,
}
use spawngate.Acme.Order.{
  create_tls_alpn01_cert, call, set_up, clean_up, fulfil, challenge_of, authorize, authorize_all,
  wait_authorization, wait_order,
}
use spawngate.Acme.Manager.{finalize_order, order_for, obtain_certificate}
use spawngate.Acme.Kept.{
  Keeps, create_tls_alpn01_cert-KeepsManager, wait_authorization-KeepsManager,
  wait_order-KeepsManager, finalize_order-KeepsManager,
}

module _ {W K : Type 0} where
  -- An action that succeeds leads from `P` to `Q`.
  abbrev pub Leads :
      {A : Type 0}
      → (AcmeManager K → Type 0)
      → (AcmeManager K → Type 0)
      → Action (State W K) A
      → Type 0
  Leads {A} P Q m = (s : State W K) (a : A) → P s.manager → (m s).1 ≡ done a → Q (m s).0.manager

  after-Leads :
      {A B : Type 0} (P Q : AcmeManager K → Type 0) (f : A → Action (State W K) B)
      (p : State W K × Outcome A) (b : B)
      → ((a : A) → p.1 ≡ done a → P p.0.manager)
      → ((a : A) → Leads P Q (f a))
      → (after f p).1 ≡ done b
      → Q (after f p).0.manager
  after-Leads P Q f (s, done a) b h q e = q a s b (h a refl) e
  after-Leads P Q f (s, failed x) b h q e = absurd (ground (arith, e))
  after-Leads P Q f (s, panicked) b h q e = absurd (ground (arith, e))
  after-Leads P Q f (s, unfinished) b h q e = absurd (ground (arith, e))

  pub bind-Leads :
      {A B : Type 0} (P Q R : AcmeManager K → Type 0) (m : Action (State W K) A)
      (f : A → Action (State W K) B)
      → Leads P Q m
      → ((a : A) → Leads Q R (f a))
      → Leads P R (m >>= f)
  unfolding ◌>>=◌
  bind-Leads P Q R m f k q s b h e = after-Leads Q R f (m s) b (λ a g. k s a h g) q e

  pub by_manager :
      {A : Type 0} (P : AcmeManager K → Type 0) (m : Action (State W K) A)
      → Keeps (λ (s : State W K). s.manager) m
      → Leads P P m
  by_manager P m k s a h e = subst P (sym (k s)) h

dropped :
    {V : Type 0} (k j : Text) (m : Dict V)
    → (text_eq k j ≡ false → get j m ≡ none)
    → get j (remove k m) ≡ none
dropped k j m h = elim (Bool-cases (text_eq k j)) [
  | inl e ↦ ground (arith, e, get-remove k j m)
  | inr e ↦ ground (arith, e, h e, get-remove k j m)
]

module _ {W O K N C : Type 0} (lib : Library W O K N C) (token domain : Text) where
  -- No challenge has the token, and no challenge certificate is for the domain.
  abbrev pub Cleared : AcmeManager K → Type 0
  Cleared m =
      (get_challenge token m ≡ none) × (get domain m.tls_alpn01_resolver.challenge_certs ≡ none)

  -- The same, but for the challenge that is set up.
  abbrev Open : AcmeChallengeType → Text → Challenge → AcmeManager K → Type 0
  Open AcmeChallengeType.http01 d c m =
      (text_eq c.token token ≡ false → get_challenge token m ≡ none)
      × (get domain m.tls_alpn01_resolver.challenge_certs ≡ none)
  Open AcmeChallengeType.tls_alpn01 d c m =
      (get_challenge token m ≡ none)
      × (text_eq d domain ≡ false → get domain m.tls_alpn01_resolver.challenge_certs ≡ none)

  set_up-Open :
      (kind : AcmeChallengeType) (d : Text) (c : Challenge) (ka : KeyAuthorization)
      → Leads Cleared (Open kind d c) (set_up lib kind d c ka)
  unfolding set_up set_challenge set_challenge_cert get_challenge
  set_up-Open AcmeChallengeType.http01 d c ka s a (h, g) e =
      ((λ n. ground (arith, n, h, get-insert c.token token ka.text s.manager.http01_challenges)), g)
  set_up-Open AcmeChallengeType.tls_alpn01 d c ka t b i f =
      (bind-Leads Cleared Cleared (Open AcmeChallengeType.tls_alpn01 d c)
          (create_tls_alpn01_cert lib d ka.digest) _
          (by_manager Cleared (create_tls_alpn01_cert lib d ka.digest)
            (create_tls_alpn01_cert-KeepsManager lib d ka.digest))
          λ cert s a (h, g) e. (
            h,
            λ n. ground (
              arith,
              n,
              g,
              get-insert d domain cert s.manager.tls_alpn01_resolver.challenge_certs,
            ),
          ))
        t b i f

  clean_up-Cleared :
      (kind : AcmeChallengeType) (d : Text) (c : Challenge)
      → Leads (Open kind d c) Cleared (clean_up lib kind d c)
  unfolding clean_up remove_challenge remove_challenge_cert get_challenge
  clean_up-Cleared AcmeChallengeType.http01 d c s a (h, g) e =
      (dropped c.token token s.manager.http01_challenges h, g)
  clean_up-Cleared AcmeChallengeType.tls_alpn01 d c s a (h, g) e =
      (h, dropped d domain s.manager.tls_alpn01_resolver.challenge_certs g)

  fulfil-Cleared :
      (fuel : ℕ) (kind : AcmeChallengeType) (d : Text) (order : O) (c : Challenge)
      → Leads Cleared Cleared (fulfil lib fuel kind d order c)
  unfolding fulfil
  fulfil-Cleared fuel kind d order c =
      bind-Leads Cleared (Open kind d c) Cleared
        (set_up lib kind d c (lib.key_authorization order c)) _ (set_up-Open kind d c _)
        λ u.
          bind-Leads (Open kind d c) (Open kind d c) Cleared _ _
            (by_manager (Open kind d c) (call lib (lib.set_challenge_ready order c.url))
              (λ s. refl))
            λ v.
              bind-Leads (Open kind d c) (Open kind d c) Cleared _ _
                (by_manager (Open kind d c) (wait_authorization lib fuel 0 d order)
                  (wait_authorization-KeepsManager lib fuel 0 d order))
                λ r.
                  bind-Leads (Open kind d c) Cleared Cleared _ _ (clean_up-Cleared kind d c)
                    λ w s a h e. h

  attempt :
      (fuel : ℕ) (kind : AcmeChallengeType) (order : O) (a : Authorization)
      → Leads Cleared Cleared
          (try (challenge_of lib kind a) >>= λ c. fulfil lib fuel kind a.identifier order c)
  attempt fuel kind order a =
      bind-Leads Cleared Cleared Cleared _ _
        (by_manager Cleared (try (challenge_of lib kind a)) (λ s. refl))
        λ c. fulfil-Cleared fuel kind a.identifier order c

  authorize-Cleared :
      (fuel : ℕ) (kind : AcmeChallengeType) (order : O) (a : Authorization)
      (status : AuthorizationStatus)
      → Leads Cleared Cleared (authorize lib fuel kind order a status)
  unfolding authorize
  authorize-Cleared fuel kind order a AuthorizationStatus.valid s b h e = h
  authorize-Cleared fuel kind order a AuthorizationStatus.pending s b h e =
      attempt fuel kind order a s b h e
  authorize-Cleared fuel kind order a AuthorizationStatus.invalid s b h e =
      attempt fuel kind order a s b h e
  authorize-Cleared fuel kind order a (AuthorizationStatus.other_status name) s b h e =
      attempt fuel kind order a s b h e

  authorize_all-Cleared :
      (fuel : ℕ) (kind : AcmeChallengeType) (authz : List Authorization) (order : O)
      → Leads Cleared Cleared (authorize_all lib fuel kind authz order)
  unfolding authorize_all
  authorize_all-Cleared fuel kind [] order s b h e = h
  authorize_all-Cleared fuel kind (a ∷ authz) order s b h e =
      bind-Leads Cleared Cleared Cleared (authorize lib fuel kind order a a.status) _
        (authorize-Cleared fuel kind order a a.status)
        (λ next. authorize_all-Cleared fuel kind authz next) s b h e

  order_for-Cleared :
      (fuel : ℕ) (config : AcmeConfig) (account : N)
      → Leads Cleared Cleared (order_for lib fuel config account)
  unfolding order_for
  order_for-Cleared fuel config account =
      bind-Leads Cleared Cleared Cleared _ _
        (by_manager Cleared (call lib (lib.new_order account config.domains)) (λ s. refl))
        λ order.
          bind-Leads Cleared Cleared Cleared _ _
            (by_manager Cleared (call lib (lib.authorizations order)) (λ s. refl))
            λ authz.
              bind-Leads Cleared Cleared Cleared
                (authorize_all lib fuel config.challenge_type authz order) _
                (authorize_all-Cleared fuel config.challenge_type authz order)
                λ o.
                  bind-Leads Cleared Cleared Cleared (wait_order lib fuel 0 o) _
                    (by_manager Cleared (wait_order lib fuel 0 o)
                      (wait_order-KeepsManager lib fuel 0 o))
                    λ r.
                      by_manager Cleared (finalize_order lib fuel config.domains r)
                        (finalize_order-KeepsManager lib fuel config.domains r)

  -- When a certificate is obtained, no challenge is left behind: a token that had no pending challenge
  -- before has none after, and a domain that had no challenge certificate has none.
  pub obtain_certificate-Cleared :
      (fuel : ℕ) (account : N) → Leads Cleared Cleared (obtain_certificate lib fuel account)
  unfolding obtain_certificate
  obtain_certificate-Cleared fuel account s = order_for-Cleared fuel s.manager.config account s
