-- ===== src/Config/Validity.antt =====
-- What `Config::validate` accepts.
use spawngate.Base.{◌≡◌, ◌≢◌, refl, ◌↔◌, true, some, [], ◌∷◌}
use spawngate.Base.{Result, ok, err, arith, is_some}
use spawngate.Base.Text.{Text}
use spawngate.Base.Lists.{All}
use spawngate.Base.Dict.{Dict, get}
use spawngate.Config.Backend.{BackendType, local, docker, BackendConfig, validate_backend}
use spawngate.Config.Load.{Config, backend_errors, validate, load}

-- The backend can be started: its command or its image is given, and its port is not 0.
abbrev pub HasTarget : BackendType → BackendConfig → Type 0
HasTarget local c = is_some c.command ≡ true
HasTarget docker c = is_some c.image ≡ true

pub record IsRunnable (c : BackendConfig) : Type 0 where
  pub target : HasTarget c.backend_type c
  pub port_set : c.port ≢ 0

IsRunnable-of_ok : (c : BackendConfig) (h : Text) → validate_backend c h ≡ ok tt → IsRunnable c
unfolding validate_backend
IsRunnable-of_ok c h e = record { target = ground arith; port_set = ground arith }

ok_of-IsRunnable : (c : BackendConfig) (h : Text) → IsRunnable c → validate_backend c h ≡ ok tt
unfolding validate_backend
ok_of-IsRunnable c h r = ground (arith, r.target, r.port_set)

abbrev pub AllRunnable : Dict BackendConfig → Type 0
AllRunnable = All (λ entry. IsRunnable entry.1)

errors-nil : (bs : Dict BackendConfig) → backend_errors bs ≡ [] → AllRunnable bs
unfolding backend_errors
errors-nil [] e = tt
errors-nil ((h, b) ∷ bs) e = (IsRunnable-of_ok b h (ground arith), errors-nil bs (ground arith))

nil_of-AllRunnable : (bs : Dict BackendConfig) → AllRunnable bs → backend_errors bs ≡ []
unfolding backend_errors
nil_of-AllRunnable [] e = refl
nil_of-AllRunnable ((h, b) ∷ bs) (r, rs) =
    ground (arith, ok_of-IsRunnable b h r, nil_of-AllRunnable bs rs)

-- The configuration validates exactly when every backend, local or Docker, names the command or
-- the image that its type requires and has a port other than 0.
pub validate-AllRunnable : (c : Config) → (validate c ≡ ok tt) ↔ AllRunnable c.backends
unfolding validate
validate-AllRunnable c = (
  λ e. errors-nil c.backends (ground arith),
  λ r. ground (arith, nil_of-AllRunnable c.backends r),
)

AllRunnable-get :
    (h : Text) (b : BackendConfig) (bs : Dict BackendConfig)
    → AllRunnable bs
    → get h bs ≡ some b
    → IsRunnable b
unfolding get
AllRunnable-get h b [] rs e = cc
AllRunnable-get h b ((j, c) ∷ bs) (r, rs) e = ground (arith, AllRunnable-get h b bs rs, r)

module _ (from_str : Text → Result Text Config) where
  -- A backend of a configuration that was loaded can be started, whatever the parser does.
  pub load-IsRunnable :
      (file : Result Text Text) (c : Config) (h : Text) (b : BackendConfig)
      → load from_str file ≡ ok c
      → get h c.backends ≡ some b
      → IsRunnable b
  unfolding load
  load-IsRunnable (ok content) c h b e g =
      AllRunnable-get h b c.backends ((validate-AllRunnable c).0 (ground arith)) g
  load-IsRunnable (err x) c h b e g = cc
