-- ===== src/Process/Probing.antt =====
-- Where the health check goes.
use spawngate.Base.{ℕ, ◌≡◌, ◌≢◌, refl, some, [], ◌∷◌, ◌++◌, arith}
use spawngate.Base.Text.{Text, codes, strip_prefix}
use spawngate.Base.Lists.{All}
use spawngate.Base.Number.{to_text, IsDigit, to_text-IsDigit}
use spawngate.Base.Strings.{split_once}
use spawngate.Config.{BackendConfig, BackendDefaults, health_path}
use spawngate.Process.Health.{health_url, health_target}

split_once-append :
    (c : ℕ) (s rest : Text) → All (λ x. x ≢ c) s → split_once c (s ++ (c ∷ rest)) ≡ some (s, rest)
unfolding split_once
split_once-append c [] rest h = ground arith
split_once-append c (x ∷ s) rest (ne, h) = ground (arith, split_once-append c s rest h)

no_slash : (s : Text) → All IsDigit s → All (λ x. x ≢ b'/') s
no_slash [] h = tt
no_slash (c ∷ s) (d, h) = (λ e. omega (arith, d.0, e), no_slash s h)

-- The address of the health check.
abbrev pub local_address : ℕ → Text
local_address port = codes "127.0.0.1:" ++ to_text port

-- The health check of a backend whose path starts with a slash connects to the backend's port on the
-- local host, and asks for that path.
pub health_target-url :
    (c : BackendConfig) (d : BackendDefaults) (path : Text)
    → health_path c d ≡ b'/' ∷ path
    → health_target (health_url c d) ≡ (local_address c.port, b'/' ∷ path)
unfolding health_target health_url strip_prefix
health_target-url c d path e =
    rw
      (
        e,
        health_target,
        split_once-append b'/' (to_text c.port) path
            (no_slash (to_text c.port) (to_text-IsDigit c.port)),
      )
      refl
