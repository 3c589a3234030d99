-- ===== src/Acme/Validity.antt =====
-- When a certificate is renewed.
use spawngate.Base.{
  ℕ, ◌+◌, ◌*◌, ◌≤◌, ◌<◌, ◌≡◌, refl, ◌↔◌, true, some, List, ◌∷◌, ok, arith, ◌⊎◌, inl, inr,
  Bool-cases,
}
use spawngate.Base.Text.{Text}
use spawngate.Base.Integer.{pos}
use spawngate.Acme.Library.{Library}
use spawngate.Acme.Certificate.{valid_for_days, is_cert_valid_for_days}
use spawngate.Acme.Action.{done}
use spawngate.Acme.Challenges.{State}
use spawngate.Acme.Manager.{needs_renewal, after_renewal, obtain_certificate, renew}

valid_for_days-pos :
    (expiry now days : ℕ)
    → (valid_for_days (pos expiry) now days ≡ true) ↔ (now + days * 86400 ≤ expiry)
unfolding valid_for_days
valid_for_days-pos expiry now days = (λ h. ground arith, λ h. ground arith)

module _ {W O K N C : Type 0} (lib : Library W O K N C) where
  needs_renewal-deadline :
      (w : W) (cert key : Text) (chain : List Text) (expiry : ℕ)
      → lib.not_after cert ≡ ok (pos expiry)
      → (needs_renewal lib w (some (cert ∷ chain, key)) ≡ true) ↔ (expiry < lib.now w + 30 * 86400)
  unfolding needs_renewal is_cert_valid_for_days
  needs_renewal-deadline w cert key chain expiry e = (
    λ h. ground (arith, e, valid_for_days-pos expiry (lib.now w) 30),
    λ h. ground (arith, e, valid_for_days-pos expiry (lib.now w) 30),
  )

  -- A check of a certificate whose expiry can be read, at a time from 1970 on: when 30 days or more of it
  -- are left, to the second, the check does nothing, and when less is left it obtains a certificate
  -- and goes on with how that ended.
  pub renew-deadline :
      (fuel : ℕ) (account : N) (s : State W K) (cert key : Text) (chain : List Text) (expiry : ℕ)
      → s.manager.current_cert ≡ some (cert ∷ chain, key)
      → lib.not_after cert ≡ ok (pos expiry)
      → ((lib.now s.world + 30 * 86400 ≤ expiry) × (renew lib fuel account s ≡ (s, done tt)))
        ⊎ ((expiry < lib.now s.world + 30 * 86400)
            × (renew lib fuel account s
                ≡ after_renewal lib (obtain_certificate lib fuel account s)))
  unfolding renew
  renew-deadline fuel account s cert key chain expiry holds e =
      let exact = needs_renewal-deadline s.world cert key chain expiry e in
      elim (Bool-cases (needs_renewal lib s.world s.manager.current_cert)) [
        | inl due ↦ inr (exact.0 (rw holds at due), rw (renew, due) refl)
        | inr early ↦ inl (ground (arith, exact, holds, early), rw (renew, early) refl)
      ]
