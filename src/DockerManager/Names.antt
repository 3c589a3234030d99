-- ===== src/DockerManager/Names.antt =====
-- The names of the containers.
use spawngate.Base.{ℕ, ◌≡◌, ◌≢◌, refl, ap, none, [], ◌∷◌, ◌++◌, arith, if◌then◌else◌, ◌==◌}
use spawngate.Base.Text.{Text, codes, replace}
use spawngate.Base.Lists.{All}
use spawngate.Config.{BackendConfig}
use spawngate.DockerManager.Container.{container_name_of}

replace-append : (a b : ℕ) (s t : Text) → replace a b (s ++ t) ≡ replace a b s ++ replace a b t
unfolding replace
replace-append a b [] t = refl
replace-append a b (c ∷ s) t = ap (λ r. (if c == a then b else c) ∷ r) (replace-append a b s t)

replace-injective :
    (s t : Text)
    → All (λ c. c ≢ b'-') s
    → All (λ c. c ≢ b'-') t
    → replace b'.' b'-' s ≡ replace b'.' b'-' t
    → s ≡ t
unfolding replace
replace-injective [] [] p q e = refl
replace-injective [] (c ∷ t) p q e = cc
replace-injective (c ∷ s) [] p q e = cc
replace-injective (c ∷ s) (d ∷ t) (np, p) (nq, q) e =
    ground (arith, replace-injective s t p q, np, nq)

append-cancel : (p s t : Text) → p ++ s ≡ p ++ t → s ≡ t
append-cancel [] s t e = e
append-cancel (c ∷ p) s t e = append-cancel p s t (ground arith)

-- Where no container name is configured and the hostnames have no hyphen, different backends have
-- containers of different names.
pub container_name_of-injective :
    (c d : BackendConfig) (h j : Text)
    → c.container_name ≡ none
    → d.container_name ≡ none
    → All (λ x. x ≢ b'-') h
    → All (λ x. x ≢ b'-') j
    → container_name_of c h ≡ container_name_of d j
    → h ≡ j
unfolding container_name_of
container_name_of-injective c d h j nc nd ph pj e =
    replace-injective h j ph pj (append-cancel (codes "spawngate-") _ _ (rw (nc, nd) at e))

-- Hostnames that differ in a dot of the one and a hyphen of the other have the same container name, so
-- that starting one backend removes the container of the other.
pub container_name_of-collides :
    (c d : BackendConfig) (pre post : Text)
    → c.container_name ≡ none
    → d.container_name ≡ none
    → container_name_of c (pre ++ (b'.' ∷ post)) ≡ container_name_of d (pre ++ (b'-' ∷ post))
unfolding container_name_of replace
container_name_of-collides c d pre post nc nd =
    rw
      (
        nc,
        nd,
        replace-append b'.' b'-' pre (b'.' ∷ post),
        replace-append b'.' b'-' pre (b'-' ∷ post),
      )
      refl
