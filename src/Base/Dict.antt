-- ===== src/Base/Dict.antt =====
-- Rust's `HashMap` and `DashMap` with text keys, as association lists. The maps give no order of
-- iteration; here it is the order of the list.
use mathlib.Core.Path.{◌≡◌}
use mathlib.Core.Bool.{Bool, false}
use mathlib.Core.List.{List, [], ◌∷◌}
use mathlib.Core.Option.{Option, none, some}
use native.Mathlib.Omega.{arith}
use spawngate.Base.Tests.{if◌then◌else◌}
use spawngate.Base.Outcome.{is_some}
use spawngate.Base.Text.{Text, text_eq, text_eq_iff, text_eq_refl}

abbrev pub Dict {ℓ} : Type ℓ → Type ℓ
Dict V = List (Text × V)

module _ {ℓ} {V : Type ℓ} where
  unfoldable pub get : Text → Dict V → Option V
  get k [] = none
  get k ((j, v) ∷ m) = if text_eq j k then some v else get k m

  unfoldable pub remove : Text → Dict V → Dict V
  remove k [] = []
  remove k ((j, v) ∷ m) = let rest = remove k m in if text_eq j k then rest else (j, v) ∷ rest

  unfoldable pub insert : Text → V → Dict V → Dict V
  unfolding remove
  insert k v m = (k, v) ∷ remove k m

  unfoldable pub contains_key : Text → Dict V → Bool
  contains_key k m = is_some (get k m)

  abbrev pub keys : Dict V → List Text
  keys [] = []
  keys ((k, v) ∷ m) = k ∷ keys m

  pub get-remove :
      (k j : Text) (m : Dict V) → get j (remove k m) ≡ (if text_eq k j then none else get j m)
  unfolding get remove
  get-remove k j [] = ground arith
  get-remove k j ((i, v) ∷ m) =
      ground (arith, get-remove k j m, text_eq_iff i k, text_eq_iff i j, text_eq_iff k j)

  pub get-insert :
      (k j : Text) (v : V) (m : Dict V)
      → get j (insert k v m) ≡ (if text_eq k j then some v else get j m)
  unfolding get insert
  get-insert k j v m = ground (arith, get-remove k j m)

  pub get-insert_self : (k : Text) (v : V) (m : Dict V) → get k (insert k v m) ≡ some v
  unfolding get insert
  get-insert_self k v m = rw (text_eq_refl k)

  pub get-insert_ne :
      (k j : Text) (v : V) (m : Dict V) → text_eq k j ≡ false → get j (insert k v m) ≡ get j m
  get-insert_ne k j v m h = ground (arith, get-insert k j v m)

  pub get-remove_self : (k : Text) (m : Dict V) → get k (remove k m) ≡ none
  get-remove_self k m = ground (arith, get-remove k k m, text_eq_refl k)

  -- No key is there twice.
  abbrev pub Unique : Dict V → Type ℓ
  Unique [] = Unit
  Unique ((k, v) ∷ m) = (get k m ≡ none) × Unique m

  pub Unique-remove : (k : Text) (m : Dict V) → Unique m → Unique (remove k m)
  unfolding remove
  Unique-remove k [] u = tt
  Unique-remove k ((j, v) ∷ m) (e, u) =
      let rest : Unique (remove k m) = Unique-remove k m u in ground (arith, rest, get-remove k j m)

  pub Unique-insert : (k : Text) (v : V) (m : Dict V) → Unique m → Unique (insert k v m)
  unfolding insert
  Unique-insert k v m u = (get-remove_self k m, Unique-remove k m u)
