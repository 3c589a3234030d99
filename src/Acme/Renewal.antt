-- ===== src/Acme/Renewal.antt =====
-- What a renewal does to the certificate that is served.
use spawngate.Base.{ℕ, ◌≡◌, ◌≢◌, refl, true, some, ok, subst, ◌⊎◌, Result-cases, inl, inr}
use spawngate.Base.Text.{Text}
use spawngate.Acme.Library.{Library}
use spawngate.Acme.Action.{Outcome, done, failed, panicked, unfinished, after, ◌>>=◌}
use spawngate.Acme.Challenges.{State, set_regular_cert}
use spawngate.Acme.Order.{context}
use spawngate.Acme.Manager.{
  Obtained, obtain_certificate, save_cert, update_cert, publish, install, after_renewal,
  needs_renewal, renew,
}
use spawngate.Acme.Kept.{Keeps-bind}
use spawngate.Acme.Serving.{Served, served, KeepsServed, obtain_certificate-KeepsServed}

module _ {W O K N C : Type 0} (lib : Library W O K N C) where
  -- The certificate is served, stored and sent to the watchers, with its key.
  abbrev pub Serves : Obtained → K → State W K → Type 0
  Serves new key s = served s ≡ (
    some (record { cert = new.certs; key = key }),
    some (new.certs, new.key),
    some (record { cert = new.certs; key = key }),
  )

  -- What installing a new certificate in a state that serves `old` comes to.
  pub data Installed (new : Obtained) (old : Served K)
      : State W K × Outcome (Unit {0}) → Type 0 where
    replaced :
        {t : State W K} {key : K}
        → lib.any_supported_type new.key ≡ ok key
        → Serves new key t
        → Installed new old (t, done tt)
    refused :
        {t : State W K} {o : Outcome (Unit {0})}
        → served t ≡ old
        → o ≢ done tt
        → Installed new old (t, o)

  update_cert-Installed :
      (new : Obtained) (s : State W K)
      → Installed new (served s) (update_cert lib new.certs new.key s)
  unfolding update_cert publish set_regular_cert ◌>>=◌ context
  update_cert-Installed new s = elim (Result-cases (lib.any_supported_type new.key)) [
    | inl (k, e) ↦ rw (update_cert, e) (replaced e refl)
    | inr (x, e) ↦ rw (update_cert, e) (refused refl (λ d. cc))
  ]

  after_save-Installed :
      (new : Obtained) (old : Served K) (p : State W K × Outcome (Unit {0}))
      → served p.0 ≡ old
      → Installed new old (after (λ _. update_cert lib new.certs new.key) p)
  after_save-Installed new old (s, done u) e =
      subst (λ o. Installed new o (update_cert lib new.certs new.key s)) e
        (update_cert-Installed new s)
  after_save-Installed new old (s, failed x) e = refused e (λ d. cc)
  after_save-Installed new old (s, panicked) e = refused e (λ d. cc)
  after_save-Installed new old (s, unfinished) e = refused e (λ d. cc)

  save_cert-KeepsServed :
      (cert_pem key_pem : Text) → KeepsServed lib (save_cert lib cert_pem key_pem)
  unfolding save_cert
  save_cert-KeepsServed cert_pem key_pem s =
      Keeps-bind (λ (t : State W K). served t) _ _ (λ t. refl)
        (λ u. Keeps-bind _ _ _ (λ t. refl) λ v t. refl) s

  install-Installed :
      (new : Obtained) (s : State W K) → Installed new (served s) (install lib new s)
  unfolding install ◌>>=◌
  install-Installed new s =
      after_save-Installed new (served s) (save_cert lib new.cert_pem new.key_pem s)
        (save_cert-KeepsServed new.cert_pem new.key_pem s)

  -- What a check of the certificate comes to, of the outcome of `obtain_certificate`.
  pub data Checked (old : Served K) (tried : Outcome Obtained)
      : State W K × Outcome (Unit {0}) → Type 0 where
    kept :
        {t : State W K} {e : Text}
        → tried ≡ failed e
        → served t ≡ old
        → Checked old tried (t, done tt)
    renewed :
        {p : State W K × Outcome (Unit {0})} {new : Obtained}
        → tried ≡ done new
        → Installed new old p
        → Checked old tried p
    broken :
        {t : State W K} {o : Outcome (Unit {0})}
        → (tried ≡ panicked) ⊎ (tried ≡ unfinished)
        → served t ≡ old
        → Checked old tried (t, o)

  after_renewal-Checked :
      (old : Served K) (p : State W K × Outcome Obtained)
      → served p.0 ≡ old
      → Checked old p.1 (after_renewal lib p)
  unfolding after_renewal
  after_renewal-Checked old (s, done new) e =
      renewed refl (subst (λ o. Installed new o (install lib new s)) e (install-Installed new s))
  after_renewal-Checked old (s, failed x) e = kept refl e
  after_renewal-Checked old (s, panicked) e = broken (inl refl) e
  after_renewal-Checked old (s, unfinished) e = broken (inr refl) e

  -- A check of a certificate that is due for renewal: when obtaining a new one fails with an error, the
  -- check succeeds and the manager goes on with the one that it serves; when one is obtained, either it is
  -- served, stored and sent to the watchers, or the check does not succeed and the old one is served on;
  -- and when obtaining one panics or is not finished, the old one is served on.
  pub renew-Checked :
      (fuel : ℕ) (account : N) (s : State W K)
      → needs_renewal lib s.world s.manager.current_cert ≡ true
      → Checked (served s) (obtain_certificate lib fuel account s).1 (renew lib fuel account s)
  unfolding renew
  renew-Checked fuel account s due =
      rw (renew, due)
        (after_renewal-Checked (served s) (obtain_certificate lib fuel account s)
          (obtain_certificate-KeepsServed lib fuel account s))
