-- ===== src/Acme/Action.antt =====
-- The calls of src/acme.rs as actions on a state, which end in one of four ways.
use spawngate.Base.{Result, ok, err}
use spawngate.Base.Text.{Text}

-- `unfinished` is a loop that goes on when the rounds of the model are used up.
pub data Outcome (A : Type 0) : Type 0 where
  done : A → Outcome A
  failed : Text → Outcome A
  panicked unfinished : Outcome A

abbrev pub Action : Type 0 → Type 0 → Type 0
Action S A = S → S × Outcome A

abbrev pub after : {S A B : Type 0} → (A → Action S B) → S × Outcome A → S × Outcome B
after f (s, done a) = f a s
after f (s, failed e) = (s, failed e)
after f (s, panicked) = (s, panicked)
after f (s, unfinished) = (s, unfinished)

infixl 5 ◌>>=◌ ◌>>◌
unfoldable pub ◌>>=◌ : {S A B : Type 0} → Action S A → (A → Action S B) → Action S B
m >>= f = λ s. after f (m s)

abbrev pub ◌>>◌ : {S B : Type 0} → Action S (Unit {0}) → Action S B → Action S B
m >> k = m >>= λ _. k

abbrev pub return : {S A : Type 0} → A → Action S A
return a = λ s. (s, done a)

abbrev pub fail : {S A : Type 0} → Text → Action S A
fail e = λ s. (s, failed e)

abbrev pub outcome_of : {A : Type 0} → Result Text A → Outcome A
outcome_of (ok a) = done a
outcome_of (err e) = failed e

-- `?` on a result
abbrev pub try : {S A : Type 0} → Result Text A → Action S A
try r = λ s. (s, outcome_of r)
