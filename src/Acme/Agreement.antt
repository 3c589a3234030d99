-- ===== src/Acme/Agreement.antt =====
-- The manager, its TLS connections and its watchers have the same certificate.
use spawngate.Base.{
  ℕ, ◌≡◌, refl, ap, sym, subst, ◌∙◌, true, false, Option, none, some, List, [], ◌∷◌, ok, Bool-cases,
  Result-cases, inl, inr,
}
use spawngate.Base.Text.{Text}
use spawngate.Acme.Library.{Library}
use spawngate.Acme.Action.{Outcome, done, failed, panicked, unfinished, Action, after, ◌>>=◌}
use spawngate.Acme.Challenges.{State, CertifiedKey, set_regular_cert}
use spawngate.Acme.Order.{pause, context}
use spawngate.Acme.Manager.{
  Obtained, Wake, renewal_interval, interval, shutdown_changed, obtain_certificate,
  get_or_create_account, save_cert, update_cert, publish, install, use_cached, obtain_first,
  after_renewal, needs_renewal, renew, renewal_loop, run, load_cached_cert,
}
use spawngate.Acme.Kept.{Keeps-bind}
use spawngate.Acme.Serving.{
  Served, served, KeepsServed, obtain_certificate-KeepsServed, get_or_create_account-KeepsServed,
}

module _ {W O K N C : Type 0} (lib : Library W O K N C) where
  -- The stored certificate and its key, as they are served.
  abbrev pub Backs : Option (List Text × Text) → Option (CertifiedKey K) → Type 0
  Backs none none = Unit
  Backs (some (certs, key)) (some c) = (c.cert ≡ certs) × (lib.any_supported_type key ≡ ok c.key)
  Backs none (some c) = ⊥
  Backs (some stored) none = ⊥

  -- What TLS serves is what was sent to watchers, and the certificate that is stored.
  pub record Agrees (s : State W K) : Type 0 where
    pub sent : s.manager.tls_alpn01_resolver.regular_cert ≡ s.manager.cert_tx
    pub stored : Backs s.manager.current_cert s.manager.cert_tx

  abbrev pub AgreesAfter : {A : Type 0} → Action (State W K) A → Type 0
  AgreesAfter m = (s : State W K) → Agrees s → Agrees (m s).0

  by_served : {A : Type 0} (m : Action (State W K) A) → KeepsServed lib m → AgreesAfter m
  by_served m k s a = record {
    sent = ap (λ x. x.0) (k s) ∙ (a.sent ∙ sym (ap (λ x. x.2) (k s)));
    stored = subst (λ (x : Served K). Backs x.1 x.2) (sym (k s)) a.stored;
  }

  after-Agrees :
      {A B : Type 0} (f : A → Action (State W K) B) (p : State W K × Outcome A)
      → ((a : A) → AgreesAfter (f a))
      → Agrees p.0
      → Agrees (after f p).0
  after-Agrees f (s, done a) q h = q a s h
  after-Agrees f (s, failed e) q h = h
  after-Agrees f (s, panicked) q h = h
  after-Agrees f (s, unfinished) q h = h

  bind-Agrees :
      {A B : Type 0} (m : Action (State W K) A) (f : A → Action (State W K) B)
      → AgreesAfter m
      → ((a : A) → AgreesAfter (f a))
      → AgreesAfter (m >>= f)
  unfolding ◌>>=◌
  bind-Agrees m f k q s h = after-Agrees f (m s) q (k s h)

  update_cert-Agrees : (certs : List Text) (key : Text) → AgreesAfter (update_cert lib certs key)
  unfolding update_cert publish set_regular_cert ◌>>=◌ context
  update_cert-Agrees certs key s h = elim (Result-cases (lib.any_supported_type key)) [
    | inl (k, e) ↦ rw (update_cert, e) (record { sent = refl; stored = (refl, e) })
    | inr (x, e) ↦ rw (update_cert, e) h
  ]

  save_cert-Agrees : (cert_pem key_pem : Text) → AgreesAfter (save_cert lib cert_pem key_pem)
  unfolding save_cert
  save_cert-Agrees cert_pem key_pem = by_served (save_cert lib cert_pem key_pem) λ s.
      (Keeps-bind (λ (t : State W K). served t) _ _ (λ t. refl)
          λ u. Keeps-bind _ _ _ (λ t. refl) λ v t. refl)
        s

  install-Agrees : (new : Obtained) → AgreesAfter (install lib new)
  unfolding install
  install-Agrees new =
      bind-Agrees (save_cert lib new.cert_pem new.key_pem) (λ u. update_cert lib new.certs new.key)
        (save_cert-Agrees new.cert_pem new.key_pem) (λ u. update_cert-Agrees new.certs new.key)

  obtain_certificate-Agrees :
      (fuel : ℕ) (account : N) → AgreesAfter (obtain_certificate lib fuel account)
  obtain_certificate-Agrees fuel account =
      by_served (obtain_certificate lib fuel account)
        (obtain_certificate-KeepsServed lib fuel account)

  use_cached-Agrees : (c : Option (List Text × Text)) → AgreesAfter (use_cached lib c)
  unfolding use_cached
  use_cached-Agrees none s h = h
  use_cached-Agrees (some (certs, key)) s h = update_cert-Agrees certs key s h

  obtain_first-Agrees :
      (fuel : ℕ) (account : N) (c : Option (List Text × Text))
      → AgreesAfter (obtain_first lib fuel account c)
  unfolding obtain_first
  obtain_first-Agrees fuel account (some c) s h = h
  obtain_first-Agrees fuel account none s h =
      bind-Agrees (obtain_certificate lib fuel account) (λ new. install lib new)
        (obtain_certificate-Agrees fuel account) install-Agrees s h

  after_renewal-Agrees :
      (p : State W K × Outcome Obtained) → Agrees p.0 → Agrees (after_renewal lib p).0
  unfolding after_renewal
  after_renewal-Agrees (s, done new) h = install-Agrees new s h
  after_renewal-Agrees (s, failed e) h = h
  after_renewal-Agrees (s, panicked) h = h
  after_renewal-Agrees (s, unfinished) h = h

  renew-Agrees : (fuel : ℕ) (account : N) → AgreesAfter (renew lib fuel account)
  unfolding renew
  renew-Agrees fuel account s h =
      elim (Bool-cases (needs_renewal lib s.world s.manager.current_cert)) [
        | inl e ↦
            rw (renew, e) (after_renewal-Agrees _ (obtain_certificate-Agrees fuel account s h))
        | inr e ↦ rw (renew, e) h
      ]

  renewal_loop-Agrees :
      (fuel : ℕ) (account : N) (wakes : List Wake)
      → AgreesAfter (renewal_loop lib fuel account wakes)
  unfolding renewal_loop pause
  renewal_loop-Agrees fuel account [] s h = h
  renewal_loop-Agrees fuel account (shutdown_changed true ∷ wakes) s h = h
  renewal_loop-Agrees fuel account (shutdown_changed false ∷ wakes) s h =
      renewal_loop-Agrees fuel account wakes s h
  renewal_loop-Agrees fuel account (interval ∷ wakes) s h =
      bind-Agrees (pause lib renewal_interval) _
        (by_served (pause lib renewal_interval) (λ t. refl))
        (λ u.
          bind-Agrees (renew lib fuel account) _ (renew-Agrees fuel account)
            λ v. renewal_loop-Agrees fuel account wakes)
        s h

  -- Whatever the ACME server answers and however the run ends, the certificate that TLS connections are
  -- served stays the one sent last to the watchers, and that of the stored chain and key, if these were
  -- so before the run; there is none exactly when none is stored.
  pub run-Agrees :
      (fuel : ℕ) (wakes : List Wake) (s : State W K) → Agrees s → Agrees (run lib fuel wakes s).0
  unfolding run
  run-Agrees fuel wakes s h =
      bind-Agrees (use_cached lib (load_cached_cert lib s)) _
        (use_cached-Agrees (load_cached_cert lib s))
        (λ u.
          bind-Agrees (get_or_create_account lib) _
            (by_served (get_or_create_account lib) (get_or_create_account-KeepsServed lib))
            λ account.
              bind-Agrees (λ t. obtain_first lib fuel account t.manager.current_cert t) _
                (λ t k. obtain_first-Agrees fuel account t.manager.current_cert t k)
                λ v. renewal_loop-Agrees fuel account wakes)
        s h
