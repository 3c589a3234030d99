-- ===== src/Process/Reloading.antt =====
-- What a reload of the configuration does to the backends.
use spawngate.Base.{
  ◌≡◌, refl, ap, sym, ◌∙◌, Bool, true, false, ◌&&◌, not, none, some, List, [], ◌∷◌, arith, inl, inr,
  Option-cases, Bool-cases,
}
use spawngate.Base.Text.{Text, text_eq, text_eq_iff, includes}
use spawngate.Base.Lists.{keep}
use spawngate.Base.Dict.{Dict, get, keys, contains_key}
use spawngate.Config.{BackendConfig, BackendDefaults}
use spawngate.Process.State.{ProcessManager, get_config, get_defaults, has_backend}
use spawngate.Process.Stop.{Action, Weather}
use spawngate.Process.Cleanup.{stop_each}
use spawngate.Process.Idle.{IsCalm, stop_each-Absent}
use spawngate.Process.Reload.{ReloadResult, to_remove, to_add, to_update, apply_config}

includes-keep :
    (p : Text → Bool) (xs : List Text) (h : Text) → includes (keep p xs) h ≡ (includes xs h && p h)
unfolding includes
includes-keep p [] h = refl
includes-keep p (x ∷ xs) h = elim (Bool-cases (text_eq x h)) [
  | inl t ↦ ground (arith, t, includes-keep p xs h, ap p ((text_eq_iff x h).0 t))
  | inr t ↦ ground (arith, t, includes-keep p xs h)
]

includes-keys_of : {V : Type 0} (h : Text) (d : Dict V) → includes (keys d) h ≡ contains_key h d
unfolding includes contains_key get
includes-keys_of h [] = refl
includes-keys_of h ((k, v) ∷ d) = ground (arith, includes-keys_of h d)

module _ (current new_backends : Dict BackendConfig) (h : Text) where
  includes-to_add :
      includes (to_add current new_backends) h
      ≡ (contains_key h new_backends && not (contains_key h current))
  unfolding to_add
  includes-to_add =
      includes-keep (λ k. not (includes (keys current) k)) (keys new_backends) h
      ∙ rw (includes-keys_of h new_backends, includes-keys_of h current) refl

  includes-to_remove :
      includes (to_remove current new_backends) h
      ≡ (contains_key h current && not (contains_key h new_backends))
  unfolding to_remove
  includes-to_remove =
      includes-keep (λ k. not (contains_key k new_backends)) (keys current) h
      ∙ rw (includes-keys_of h current) refl

  includes-to_update :
      includes (to_update current new_backends) h
      ≡ (contains_key h new_backends && contains_key h current)
  unfolding to_update
  includes-to_update =
      includes-keep (λ k. includes (keys current) k) (keys new_backends) h
      ∙ rw (includes-keys_of h new_backends, includes-keys_of h current) refl

module _ (env : Text → Weather) (new_backends : Dict BackendConfig) (d : BackendDefaults)
    (m m' : ProcessManager) (acts : List Action) (r : ReloadResult)
    (e : apply_config env new_backends d m ≡ some (m', acts, r)) where
  apply_config-parts :
      (last : ProcessManager) × (stop_each env (to_remove m.configs new_backends) m
        ≡ some (last, acts))
      × (m' ≡ record last { configs = new_backends; defaults = d })
      × (r ≡ record {
        added = to_add m.configs new_backends;
        removed = to_remove m.configs new_backends;
        updated = to_update m.configs new_backends;
      })
  unfolding apply_config
  apply_config-parts = elim (Option-cases (stop_each env (to_remove m.configs new_backends) m)) [
    | inl n ↦ absurd (ground (arith, n))
    | inr ((last, acts'), s) ↦ (last, ground (arith, s), ground (arith, s), ground (arith, s))
  ]

  -- A reload partitions the backends: those only in the new configuration are reported as added,
  -- those only in the old one as removed, and those in both as updated, changed or not; afterwards the
  -- manager has exactly the new configuration and defaults.
  pub apply_config-result :
      (h : Text)
      → (includes r.added h ≡ (contains_key h new_backends && not (contains_key h m.configs)))
        × (includes r.removed h ≡ (contains_key h m.configs && not (contains_key h new_backends)))
        × (includes r.updated h ≡ (contains_key h new_backends && contains_key h m.configs))
        × (get_config m' h ≡ get h new_backends)
        × (get_defaults m' ≡ d)
  unfolding get_config get_defaults
  apply_config-result h =
      let (last, stops, after, result) = apply_config-parts in
      rw (after, result)
        (
          includes-to_add m.configs new_backends h,
          includes-to_remove m.configs new_backends h,
          includes-to_update m.configs new_backends h,
          refl,
          refl,
        )

  -- A backend that a reload reports as removed is no longer configured, and where no other task
  -- starts a backend meanwhile, its process is gone.
  pub apply_config-removed :
      (h : Text)
      → ((k : Text) → IsCalm (env k))
      → includes r.removed h ≡ true
      → (has_backend m' h ≡ false) × (get h m'.processes ≡ none)
  unfolding has_backend contains_key
  apply_config-removed h calm gone =
      let (last, stops, after, result) = apply_config-parts in
      let listed : includes (to_remove m.configs new_backends) h ≡ true =
        sym (ap (λ x. includes x.removed h) result) ∙ gone in
      rw after (
        ground (arith, listed, includes-to_remove m.configs new_backends h),
        stop_each-Absent env _ h m last acts calm (inl listed) stops,
      )
