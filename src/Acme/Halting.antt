-- ===== src/Acme/Halting.antt =====
-- When an order comes to an end.
use spawngate.Base.{
  ℕ, zero, suc, ◌+◌, ◌≤◌, ◌≡◌, ◌≢◌, refl, subst, Bool, true, false, Option, none, some, List, [],
  ◌∷◌, Result, ok, err, arith, if◌then◌else◌, ltb, Bool-cases, inl, inr,
}
use spawngate.Base.Text.{Text, text_eq}
use spawngate.Base.Lists.{All}
use spawngate.Acme.Library.{AuthorizationStatus, Authorization, OrderStatus, processing, Library}
use spawngate.Acme.Action.{
  Outcome, done, failed, panicked, unfinished, Action, after, ◌>>=◌, ◌>>◌, fail, try,
}
use spawngate.Acme.Challenges.{State}
use spawngate.Acme.Order.{
  call, pause, current_status, judge, wait_authorization, judge_certificate, wait_certificate,
}

-- The outcome is an error, or a value with the property.
abbrev pub Verdict : {A : Type 0} → (A → Type 0) → Outcome A → Type 0
Verdict P (done a) = P a
Verdict P (failed e) = Unit
Verdict P panicked = ⊥
Verdict P unfinished = ⊥

module _ {S : Type 0} where
  abbrev pub Halts : {A : Type 0} → (A → Type 0) → Action S A → Type 0
  Halts P m = (s : S) → Verdict P (m s).1

  after-Halts :
      {A B : Type 0} (P : A → Type 0) (Q : B → Type 0) (f : A → Action S B) (p : S × Outcome A)
      → Verdict P p.1
      → ((a : A) → P a → Halts Q (f a))
      → Verdict Q (after f p).1
  after-Halts P Q f (s, done a) h q = q a h s
  after-Halts P Q f (s, failed e) h q = tt
  after-Halts P Q f (s, panicked) h q = h
  after-Halts P Q f (s, unfinished) h q = h

  pub bind-Halts :
      {A B : Type 0} (P : A → Type 0) (Q : B → Type 0) (m : Action S A) (f : A → Action S B)
      → Halts P m
      → ((a : A) → P a → Halts Q (f a))
      → Halts Q (m >>= f)
  unfolding ◌>>=◌
  bind-Halts P Q m f h q s = after-Halts P Q f (m s) (h s) q

  pub if-Halts :
      {A : Type 0} (P : A → Type 0) (b : Bool) (m n : Action S A)
      → (b ≡ true → Halts P m)
      → (b ≡ false → Halts P n)
      → Halts P (if b then m else n)
  if-Halts P true m n h k = h refl
  if-Halts P false m n h k = k refl

  pub try-Halts :
      {A : Type 0} (P : A → Type 0) (r : Result Text A)
      → ((a : A) → r ≡ ok a → P a)
      → Halts P (try r)
  try-Halts P (ok a) h s = h a refl
  try-Halts P (err e) h s = tt

abbrev pub Anything : {A : Type 0} → A → Type 0
Anything a = Unit

-- The status is one that the wait for an authorization counts or ends at.
abbrev pub IsCounted : AuthorizationStatus → Type 0
IsCounted (AuthorizationStatus.other_status name) = ⊥
IsCounted AuthorizationStatus.pending = Unit
IsCounted AuthorizationStatus.valid = Unit
IsCounted AuthorizationStatus.invalid = Unit

-- `Open` holds of an order from the time it is placed until it is finalized.
pub record Settles {W O K N C : Type 0} (lib : Library W O K N C) (Open : O → Type 0) : Type 0 where
  pub counted :
      (o : O) (w : W) (authz : List Authorization)
      → (lib.authorizations o w).1 ≡ ok authz
      → All (λ a. IsCounted a.status) authz
  pub placed :
      (n : N) (domains : List Text) (w : W) (o : O) → (lib.new_order n domains w).1 ≡ ok o → Open o
  pub refreshed : (o o' : O) (w : W) → Open o → (lib.refresh o w).1 ≡ ok o' → Open o'
  pub not_processing : (o : O) → Open o → lib.order_status o ≢ processing

module _ {W O K N C : Type 0} (lib : Library W O K N C) where
  pub call-Halts :
      {A : Type 0} (P : A → Type 0) (f : W → W × Result Text A)
      → ((w : W) (a : A) → (f w).1 ≡ ok a → P a)
      → Halts P (call lib f)
  call-Halts P f h s = try-Halts P (f s.world).1 (h s.world) s

  -- The next round of a wait that is within its limit, with rounds left for it.
  abbrev pub Again : {B : Type 0} → (B → Type 0) → ℕ → (ℕ → Action (State W K) B) → Type 0
  Again P fuel again = (k : ℕ) → k ≤ 30 → 31 ≤ fuel + k → Halts P (again k)

  pub counted-Halts :
      {B : Type 0} (P : B → Type 0) (fuel n : ℕ) (message : Text) (again : ℕ → Action (State W K) B)
      → n ≤ 30
      → 31 ≤ suc fuel + n
      → Again P fuel again
      → Halts P (if ltb 30 (n + 1) then fail message else again (n + 1))
  counted-Halts P fuel n message again l e q =
      if-Halts P (ltb 30 (n + 1)) _ _ (λ t s. tt) λ t. q (n + 1) (ground arith) (omega arith)

  judge_certificate-Halts :
      (fuel n : ℕ) (order : O) (again : ℕ → O → Action (State W K) Text) (status : OrderStatus)
      → n ≤ 30
      → 31 ≤ suc fuel + n
      → Again Anything fuel (λ k. again k order)
      → Halts Anything (judge_certificate lib again n order status)
  unfolding judge_certificate pause
  judge_certificate-Halts fuel n order again OrderStatus.valid l e q =
      bind-Halts Anything Anything (call lib (lib.certificate order)) _
        (call-Halts Anything (lib.certificate order) λ w a h. tt)
        λ c u. try-Halts Anything _ λ a h. tt
  judge_certificate-Halts fuel n order again OrderStatus.processing l e q =
      counted-Halts Anything fuel n _ (λ k. pause lib 2 >> again k order) l e
        λ k k≤ b. bind-Halts Anything Anything (pause lib 2) _ (λ s. tt) λ u v. q k k≤ b
  judge_certificate-Halts fuel n order again OrderStatus.ready l e q = λ s. tt
  judge_certificate-Halts fuel n order again OrderStatus.pending l e q = λ s. tt
  judge_certificate-Halts fuel n order again OrderStatus.invalid l e q = λ s. tt

  pub wait_certificate-Halts :
      (fuel n : ℕ) (order : O)
      → n ≤ 30
      → 31 ≤ fuel + n
      → Halts Anything (wait_certificate lib fuel n order)
  unfolding wait_certificate
  wait_certificate-Halts zero n order l e = absurd (omega arith)
  wait_certificate-Halts (suc fuel) n order l e =
      bind-Halts Anything Anything (call lib (lib.refresh order)) _
        (call-Halts Anything (lib.refresh order) λ w a h. tt)
        λ r u.
          judge_certificate-Halts fuel n r (λ k o. wait_certificate lib fuel k o)
            (lib.order_status r) l e λ k a b. wait_certificate-Halts fuel k r a b

  module _ (Open : O → Type 0) (t : Settles lib Open) where
    current_status-IsCounted :
        (domain : Text) (authz : List Authorization) (status : AuthorizationStatus)
        → All (λ a. IsCounted a.status) authz
        → current_status domain authz ≡ some status
        → IsCounted status
    unfolding current_status
    current_status-IsCounted domain [] status q e = absurd (ground (arith, e))
    current_status-IsCounted domain (a ∷ authz) status (c, q) e =
        elim (Bool-cases (text_eq a.identifier domain)) [
          | inl f ↦ subst IsCounted (ground (arith, f, e)) c
          | inr f ↦ current_status-IsCounted domain authz status q (ground (arith, f, e))
        ]

    judge-Halts :
        (fuel n : ℕ) (domain : Text) (order : O) (again : ℕ → Action (State W K) O)
        (status : Option AuthorizationStatus)
        → Open order
        → ((x : AuthorizationStatus) → status ≡ some x → IsCounted x)
        → n ≤ 30
        → 31 ≤ suc fuel + n
        → Again Open fuel again
        → Halts Open (judge lib again n domain order status)
    unfolding judge
    judge-Halts fuel n domain order again none o c l e q = λ s. tt
    judge-Halts fuel n domain order again (some AuthorizationStatus.valid) o c l e q = λ s. o
    judge-Halts fuel n domain order again (some AuthorizationStatus.pending) o c l e q =
        counted-Halts Open fuel n _ again l e q
    judge-Halts fuel n domain order again (some AuthorizationStatus.invalid) o c l e q = λ s. tt
    judge-Halts fuel n domain order again (some (AuthorizationStatus.other_status x)) o c l e q =
        absurd (c _ refl)

    pub wait_authorization-Halts :
        (fuel n : ℕ) (domain : Text) (order : O)
        → Open order
        → n ≤ 30
        → 31 ≤ fuel + n
        → Halts Open (wait_authorization lib fuel n domain order)
    unfolding wait_authorization pause
    wait_authorization-Halts zero n domain order o l e = absurd (omega arith)
    wait_authorization-Halts (suc fuel) n domain order o l e =
        bind-Halts Anything Open (pause lib 2) _ (λ s. tt)
          λ u v.
            bind-Halts Open Open (call lib (lib.refresh order)) _
              (call-Halts Open (lib.refresh order) λ w a h. t.refreshed order a w o h)
              λ r o'.
                bind-Halts (λ authz. All (λ a. IsCounted a.status) authz) Open
                  (call lib (lib.authorizations r)) _
                  (call-Halts _ (lib.authorizations r) (λ w a h. t.counted r w a h))
                  λ authz c.
                    judge-Halts fuel n domain r (λ k. wait_authorization lib fuel k domain r)
                      (current_status domain authz) o'
                      (λ x h. current_status-IsCounted domain authz x c h) l e
                      λ k a b. wait_authorization-Halts fuel k domain r o' a b
