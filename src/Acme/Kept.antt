-- ===== src/Acme/Kept.antt =====
-- What the steps of an order leave as it was.
use spawngate.Base.{
  ◌+◌, ℕ, zero, suc, ◌≡◌, refl, ◌∙◌, Bool, true, false, Option, none, some, List, [], ◌∷◌,
  if◌then◌else◌, ltb,
}
use spawngate.Base.Text.{Text}
use spawngate.Acme.Library.{AuthorizationStatus, OrderStatus, Library}
use spawngate.Acme.Action.{Outcome, done, failed, panicked, unfinished, Action, after, ◌>>=◌}
use spawngate.Acme.Challenges.{State}
use spawngate.Acme.Order.{
  pause, create_tls_alpn01_cert, judge, wait_authorization, next_order, judge_order, wait_order,
  judge_certificate, wait_certificate,
}
use spawngate.Acme.Manager.{first_domain, finalize_order}

module _ {S X : Type 0} (part : S → X) where
  -- Whatever its outcome, the action leaves a part of the state as it was.
  abbrev pub Keeps : {A : Type 0} → Action S A → Type 0
  Keeps m = (s : S) → part (m s).0 ≡ part s

  after-kept :
      {A B : Type 0} (f : A → Action S B) (p : S × Outcome A)
      → ((a : A) → Keeps (f a))
      → part (after f p).0 ≡ part p.0
  after-kept f (s, done a) q = q a s
  after-kept f (s, failed e) q = refl
  after-kept f (s, panicked) q = refl
  after-kept f (s, unfinished) q = refl

  pub Keeps-bind :
      {A B : Type 0} (m : Action S A) (f : A → Action S B)
      → Keeps m
      → ((a : A) → Keeps (f a))
      → Keeps (m >>= f)
  unfolding ◌>>=◌
  Keeps-bind m f k q s = after-kept f (m s) q ∙ k s

  pub Keeps-if :
      {A : Type 0} (b : Bool) (m n : Action S A) → Keeps m → Keeps n → Keeps (if b then m else n)
  Keeps-if true m n k l = k
  Keeps-if false m n k l = l

-- The library's calls do not reach the manager.
module _ {W O K N C : Type 0} (lib : Library W O K N C) where
  abbrev pub KeepsManager : {A : Type 0} → Action (State W K) A → Type 0
  KeepsManager m = Keeps (λ (s : State W K). s.manager) m

  pub create_tls_alpn01_cert-KeepsManager :
      (domain digest : Text) → KeepsManager (create_tls_alpn01_cert lib domain digest)
  unfolding create_tls_alpn01_cert
  create_tls_alpn01_cert-KeepsManager domain digest =
      Keeps-bind _ _ _ (λ s. refl)
        λ params.
          Keeps-bind _ _ _ (λ s. refl)
            λ key_pair.
              Keeps-bind _ _ _ (λ s. refl)
                λ cert.
                  Keeps-bind _ _ _ (λ s. refl)
                    λ key_der. Keeps-bind _ _ _ (λ s. refl) λ signing_key s. refl

  judge-KeepsManager :
      (again : ℕ → Action (State W K) O) (attempts : ℕ) (domain : Text) (order : O)
      (status : Option AuthorizationStatus)
      → ((n : ℕ) → KeepsManager (again n))
      → KeepsManager (judge lib again attempts domain order status)
  unfolding judge
  judge-KeepsManager again n domain order none k = λ s. refl
  judge-KeepsManager again n domain order (some AuthorizationStatus.valid) k = λ s. refl
  judge-KeepsManager again n domain order (some AuthorizationStatus.pending) k =
      Keeps-if _ (ltb 30 (n + 1)) _ _ (λ s. refl) (k (n + 1))
  judge-KeepsManager again n domain order (some AuthorizationStatus.invalid) k = λ s. refl
  judge-KeepsManager again n domain order (some (AuthorizationStatus.other_status name)) k = k n

  pub wait_authorization-KeepsManager :
      (fuel attempts : ℕ) (domain : Text) (order : O)
      → KeepsManager (wait_authorization lib fuel attempts domain order)
  unfolding wait_authorization pause
  wait_authorization-KeepsManager zero n domain order = λ s. refl
  wait_authorization-KeepsManager (suc fuel) n domain order =
      Keeps-bind _ _ _ (λ s. refl)
        λ u.
          Keeps-bind _ _ _ (λ s. refl)
            λ refreshed.
              Keeps-bind _ _ _ (λ s. refl)
                λ auths.
                  judge-KeepsManager (λ k. wait_authorization lib fuel k domain refreshed) n domain
                    refreshed _ λ k. wait_authorization-KeepsManager fuel k domain refreshed

  next_order-KeepsManager :
      (again : O → Action (State W K) O) (order : O)
      → ((o : O) → KeepsManager (again o))
      → KeepsManager (next_order lib again order)
  unfolding next_order pause
  next_order-KeepsManager again order k =
      Keeps-bind _ _ _ (λ s. refl) λ u. Keeps-bind _ _ _ (λ s. refl) k

  judge_order-KeepsManager :
      (again : ℕ → O → Action (State W K) O) (attempts : ℕ) (order : O) (status : OrderStatus)
      → ((n : ℕ) (o : O) → KeepsManager (again n o))
      → KeepsManager (judge_order lib again attempts order status)
  unfolding judge_order
  judge_order-KeepsManager again n order OrderStatus.ready k = λ s. refl
  judge_order-KeepsManager again n order OrderStatus.pending k =
      Keeps-if _ (ltb 30 (n + 1)) _ _ (λ s. refl) (next_order-KeepsManager _ order (k (n + 1)))
  judge_order-KeepsManager again n order OrderStatus.invalid k = λ s. refl
  judge_order-KeepsManager again n order OrderStatus.valid k = λ s. refl
  judge_order-KeepsManager again n order OrderStatus.processing k =
      next_order-KeepsManager _ order (k n)

  pub wait_order-KeepsManager :
      (fuel attempts : ℕ) (order : O) → KeepsManager (wait_order lib fuel attempts order)
  unfolding wait_order
  wait_order-KeepsManager zero n order = λ s. refl
  wait_order-KeepsManager (suc fuel) n order =
      judge_order-KeepsManager (λ k o. wait_order lib fuel k o) n order _
        λ k o. wait_order-KeepsManager fuel k o

  judge_certificate-KeepsManager :
      (again : ℕ → O → Action (State W K) Text) (attempts : ℕ) (order : O) (status : OrderStatus)
      → ((n : ℕ) (o : O) → KeepsManager (again n o))
      → KeepsManager (judge_certificate lib again attempts order status)
  unfolding judge_certificate pause
  judge_certificate-KeepsManager again n order OrderStatus.valid k =
      Keeps-bind _ _ _ (λ s. refl) λ c s. refl
  judge_certificate-KeepsManager again n order OrderStatus.processing k =
      Keeps-if _ (ltb 30 (n + 1)) _ _ (λ s. refl)
        (Keeps-bind _ _ _ (λ s. refl) λ u. k (n + 1) order)
  judge_certificate-KeepsManager again n order OrderStatus.ready k = λ s. refl
  judge_certificate-KeepsManager again n order OrderStatus.pending k = λ s. refl
  judge_certificate-KeepsManager again n order OrderStatus.invalid k = λ s. refl

  wait_certificate-KeepsManager :
      (fuel attempts : ℕ) (order : O) → KeepsManager (wait_certificate lib fuel attempts order)
  unfolding wait_certificate
  wait_certificate-KeepsManager zero n order = λ s. refl
  wait_certificate-KeepsManager (suc fuel) n order =
      Keeps-bind _ _ _ (λ s. refl)
        λ refreshed.
          judge_certificate-KeepsManager (λ k o. wait_certificate lib fuel k o) n refreshed _
            λ k o. wait_certificate-KeepsManager fuel k o

  first_domain-KeepsManager : (ds : List Text) → KeepsManager (first_domain lib ds)
  unfolding first_domain
  first_domain-KeepsManager [] = λ s. refl
  first_domain-KeepsManager (d ∷ ds) = λ s. refl

  pub finalize_order-KeepsManager :
      (fuel : ℕ) (domains : List Text) (order : O)
      → KeepsManager (finalize_order lib fuel domains order)
  unfolding finalize_order
  finalize_order-KeepsManager fuel domains order =
      Keeps-bind _ _ _ (λ s. refl)
        λ params. Keeps-bind _ _ _ (first_domain-KeepsManager domains) λ common_name.
          Keeps-bind _ _ _ (λ s. refl)
            λ private_key.
              Keeps-bind _ _ _ (λ s. refl)
                λ csr.
                  Keeps-bind _ _ _ (λ s. refl)
                    λ finalized.
                      Keeps-bind _ _ _ (wait_certificate-KeepsManager fuel 0 finalized)
                        λ chain. Keeps-bind _ _ _ (λ s. refl) λ key s. refl
