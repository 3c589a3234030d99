-- ===== src/Base/Number.antt =====
-- Numbers in decimal: `to_string`, and `parse::<u16>`.
use spawngate.Base.Tests.{Bool-cases, leb, ltb, ◌==◌, if◌then◌else◌}
use spawngate.Base.Text.{Text}
use spawngate.Base.Lists.{All}
use mathlib.Core.Logic.{inl, inr}
use Prim.Native.Nat.{ℕ, zero, suc, ◌+◌, ◌-◌, ◌*◌, ◌/◌, ◌%◌, ◌<◌, ◌≤◌}
use mathlib.Core.Path.{◌≡◌}
use mathlib.Core.Bool.{Bool, true, false, ◌&&◌}
use mathlib.Core.List.{[], ◌∷◌}
use mathlib.Core.Option.{Option, none, some}
use native.Mathlib.Omega.{arith}

-- The digits of `n` before those of `acc`. A number has no more digits than its value plus one.
prepend : ℕ → ℕ → Text → Text
prepend zero n acc = acc
prepend (suc fuel) n acc =
    let rest = prepend fuel (n / 10) ((48 + n % 10) ∷ acc) in
    if n / 10 == 0 then (48 + n % 10) ∷ acc else rest

unfoldable pub to_text : ℕ → Text
unfolding prepend
to_text n = prepend (n + 1) n []

unfoldable pub digits : ℕ → Text → Option ℕ
digits n [] = some n
digits n (c ∷ s) =
    let rest = digits (n * 10 + (c - 48)) s in if leb 48 c && leb c 57 then rest else none

unsigned : Text → Option ℕ
unfolding digits
unsigned [] = none
unsigned (c ∷ s) = digits 0 (c ∷ s)

fits : Option ℕ → Option ℕ
fits none = none
fits (some n) = if ltb n 65536 then some n else none

-- A leading `+` is read too, as the standard library does.
unfoldable pub parse_u16 : Text → Option ℕ
unfolding unsigned fits
parse_u16 [] = none
parse_u16 (c ∷ s) = fits (if c == b'+' then unsigned s else unsigned (c ∷ s))

-- Leading digits count more: `digits` goes on from them.
digits-prepend : (fuel n : ℕ) (acc : Text) → n < fuel → digits 0 (prepend fuel n acc) ≡ digits n acc
unfolding digits prepend
digits-prepend zero n acc h = elim h [ ]
digits-prepend (suc fuel) n acc h =
    ground (arith, digits-prepend fuel (n / 10) ((48 + n % 10) ∷ acc))

pub digits-to_text : (n : ℕ) → digits 0 (to_text n) ≡ some n
unfolding to_text digits
digits-to_text n = digits-prepend (n + 1) n [] (omega arith)

starts_digit : Text → Bool
starts_digit [] = false
starts_digit (c ∷ s) = leb 48 c && leb c 57

starts_digit-prepend :
    (fuel n : ℕ) (acc : Text) → n < fuel → starts_digit (prepend fuel n acc) ≡ true
unfolding prepend starts_digit
starts_digit-prepend zero n acc h = elim h [ ]
starts_digit-prepend (suc fuel) n acc h =
    ground (arith, starts_digit-prepend fuel (n / 10) ((48 + n % 10) ∷ acc))

parse_digits :
    (s : Text) (n : ℕ)
    → starts_digit s ≡ true
    → digits 0 s ≡ some n
    → n < 65536
    → parse_u16 s ≡ some n
unfolding parse_u16 starts_digit
parse_digits [] n d e h = cc
parse_digits (c ∷ s) n d e h = ground arith

-- A port that is printed is read back.
pub parse_u16-to_text : (n : ℕ) → n < 65536 → parse_u16 (to_text n) ≡ some n
unfolding to_text digits
parse_u16-to_text n h =
    parse_digits (prepend (n + 1) n []) n (starts_digit-prepend (n + 1) n [] (omega arith))
      (digits-prepend (n + 1) n [] (omega arith)) h

abbrev pub IsDigit : ℕ → Type 0
IsDigit c = (48 ≤ c) × (c ≤ 57)

prepend-IsDigit : (fuel n : ℕ) (acc : Text) → All IsDigit acc → All IsDigit (prepend fuel n acc)
unfolding prepend
prepend-IsDigit zero n acc h = h
prepend-IsDigit (suc fuel) n acc h = elim (Bool-cases (n / 10 == 0)) [
  | inl e ↦ rw (prepend, e) (digit n, h)
  | inr e ↦ rw (prepend, e) (prepend-IsDigit fuel (n / 10) ((48 + n % 10) ∷ acc) (digit n, h))
]
  where
    digit : (n : ℕ) → IsDigit (48 + n % 10)
    digit n = (omega arith, omega arith)

pub to_text-IsDigit : (n : ℕ) → All IsDigit (to_text n)
unfolding to_text
to_text-IsDigit n = prepend-IsDigit (n + 1) n [] tt
