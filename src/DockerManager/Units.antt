-- ===== src/DockerManager/Units.antt =====
-- Memory limits as they are written in a configuration.
use mathlib.Core.List.{reverse, reverse-reverse, reverse-cons}
use spawngate.Base.{
  ℕ, ◌*◌, ◌^◌, ◌≤◌, ◌<◌, ◌≡◌, refl, ap, ◌∙◌, some, [], ◌∷◌, ◌++◌, ok, arith, ◌⊎◌, inl,
}
use spawngate.Base.Text.{Text, codes, to_lowercase, lower, text_eq}
use spawngate.Base.Lists.{All, All-append}
use spawngate.Base.Number.{to_text, IsDigit, to_text-IsDigit}
use spawngate.Base.Strings.{is_whitespace, trim, trim_start, ends_with, trim_end_matches, repeats}
use spawngate.Base.Integer.{pos}
use spawngate.DockerManager.Memory.{Floats, split_unit, read_limit, parse_memory_limit}

pub data MemoryUnit : Type 0 where
  unit_b unit_k unit_kb unit_m unit_mb unit_g unit_gb : MemoryUnit

abbrev pub unit_text : MemoryUnit → Text
unit_text unit_b = []
unit_text unit_k = codes "k"
unit_text unit_kb = codes "kb"
unit_text unit_m = codes "m"
unit_text unit_mb = codes "mb"
unit_text unit_g = codes "g"
unit_text unit_gb = codes "gb"

abbrev pub unit_size : MemoryUnit → ℕ
unit_size unit_b = 1
unit_size unit_k = 2 ^ 10
unit_size unit_kb = 2 ^ 10
unit_size unit_m = 2 ^ 20
unit_size unit_mb = 2 ^ 20
unit_size unit_g = 2 ^ 30
unit_size unit_gb = 2 ^ 30

-- A digit or a lower-case letter.
IsPlain : ℕ → Type 0
IsPlain c = ((48 ≤ c) × (c ≤ 57)) ⊎ ((97 ≤ c) × (c ≤ 122))

trim_start-plain : (s : Text) → All IsPlain s → trim_start s ≡ s
unfolding trim_start is_whitespace IsPlain
trim_start-plain [] a = refl
trim_start-plain (c ∷ s) (p, a) = ground (arith, p)

All-reverse : (s : Text) → All IsPlain s → All IsPlain (reverse s)
All-reverse [] a = tt
All-reverse (c ∷ s) (p, a) =
    rw (reverse-cons c s) (All-append IsPlain (reverse s) (c ∷ []) (All-reverse s a) (p, tt))

trim-plain : (s : Text) → All IsPlain s → trim s ≡ s
unfolding trim
trim-plain s a =
    rw (trim, trim_start-plain s a, trim_start-plain (reverse s) (All-reverse s a))
      (reverse-reverse s)

to_lowercase-plain : (s : Text) → All IsPlain s → to_lowercase s ≡ s
unfolding to_lowercase IsPlain lower
to_lowercase-plain [] a = refl
to_lowercase-plain (c ∷ s) (p, a) = ground (arith, p, to_lowercase-plain s a)

module _ (x : ℕ) (p t : Text) (letter : 57 < x) where
  ends_with-digits : (s : Text) → All IsDigit s → ends_with (x ∷ p) (s ++ t) ≡ ends_with (x ∷ p) t
  unfolding ends_with text_eq
  ends_with-digits [] a = refl
  ends_with-digits (c ∷ s) (d, a) = ground (arith, d, letter, ends_with-digits s a)

  trim_end_matches-digits :
      (s : Text)
      → All IsDigit s
      → trim_end_matches (x ∷ p) (s ++ t) ≡ s ++ trim_end_matches (x ∷ p) t
  unfolding trim_end_matches repeats
  trim_end_matches-digits [] a = refl
  trim_end_matches-digits (c ∷ s) (d, a) = ground (arith, d, letter, trim_end_matches-digits s a)

split_unit-digits :
    (s t : Text) → All IsDigit s → split_unit (s ++ t) ≡ (s ++ (split_unit t).0, (split_unit t).1)
unfolding split_unit
split_unit-digits s t a = ground (
  arith,
  ends_with-digits b'g' [] t (ground arith) s a,
  ends_with-digits b'g' (codes "b") t (ground arith) s a,
  ends_with-digits b'm' [] t (ground arith) s a,
  ends_with-digits b'm' (codes "b") t (ground arith) s a,
  ends_with-digits b'k' [] t (ground arith) s a,
  ends_with-digits b'k' (codes "b") t (ground arith) s a,
  trim_end_matches-digits b'g' (codes "b") t (ground arith) s a,
  trim_end_matches-digits b'g' [] (trim_end_matches (codes "gb") t) (ground arith) s a,
  trim_end_matches-digits b'm' (codes "b") t (ground arith) s a,
  trim_end_matches-digits b'm' [] (trim_end_matches (codes "mb") t) (ground arith) s a,
  trim_end_matches-digits b'k' (codes "b") t (ground arith) s a,
  trim_end_matches-digits b'k' [] (trim_end_matches (codes "kb") t) (ground arith) s a,
)

split_unit-unit_text : (u : MemoryUnit) → split_unit (unit_text u) ≡ ([], unit_size u)
unfolding split_unit ends_with trim_end_matches repeats text_eq
split_unit-unit_text unit_b = refl
split_unit-unit_text unit_k = refl
split_unit-unit_text unit_kb = refl
split_unit-unit_text unit_m = refl
split_unit-unit_text unit_mb = refl
split_unit-unit_text unit_g = refl
split_unit-unit_text unit_gb = refl

IsPlain-digits : (s : Text) → All IsDigit s → All IsPlain s
unfolding IsPlain
IsPlain-digits [] a = tt
IsPlain-digits (c ∷ s) (d, a) = (inl d, IsPlain-digits s a)

IsPlain-unit_text : (u : MemoryUnit) → All IsPlain (unit_text u)
unfolding IsPlain
IsPlain-unit_text unit_b = tt
IsPlain-unit_text unit_k = (ground arith, tt)
IsPlain-unit_text unit_kb = (ground arith, (ground arith, tt))
IsPlain-unit_text unit_m = (ground arith, tt)
IsPlain-unit_text unit_mb = (ground arith, (ground arith, tt))
IsPlain-unit_text unit_g = (ground arith, tt)
IsPlain-unit_text unit_gb = (ground arith, (ground arith, tt))

append_nil : (s : Text) → s ++ [] ≡ s
append_nil [] = refl
append_nil (c ∷ s) = ap (λ r. c ∷ r) (append_nil s)

-- What `f64` does with natural numbers: it reads a number that was printed, and its product with a
-- number, taken back to an integer, is exact below 2^53.
pub record ReadsNumbers (fl : Floats) : Type 0 where
  pub of : ℕ → fl.F
  pub parse : (n : ℕ) → fl.parse_f64 (to_text n) ≡ some (of n)
  pub exact : (n k : ℕ) → n * k < 2 ^ 53 → fl.times_as_i64 (of n) k ≡ pos (n * k)

split_unit-to_text :
    (n : ℕ) (u : MemoryUnit) → split_unit (to_text n ++ unit_text u) ≡ (to_text n, unit_size u)
split_unit-to_text n u =
    split_unit-digits (to_text n) (unit_text u) (to_text-IsDigit n)
    ∙ rw (split_unit-unit_text u, append_nil (to_text n)) refl

read_limit-number :
    (fl : Floats) (limit : Text) (n k : ℕ) (r : ReadsNumbers fl)
    → n * k < 2 ^ 53
    → read_limit fl limit (to_text n, k) ≡ ok (pos (n * k))
unfolding read_limit
read_limit-number fl limit n k r small = rw (read_limit, r.parse n, r.exact n k small) refl

-- A memory limit that is written as a number and a unit, or as a number alone, is read as that many
-- bytes, where these are less than 2^53.
pub parse_memory_limit-to_text :
    (fl : Floats) (n : ℕ) (u : MemoryUnit)
    → ReadsNumbers fl
    → n * unit_size u < 2 ^ 53
    → parse_memory_limit fl (to_text n ++ unit_text u) ≡ ok (pos (n * unit_size u))
unfolding parse_memory_limit
parse_memory_limit-to_text fl n u r small =
    let digits = to_text-IsDigit n in
    let text = to_text n ++ unit_text u in
    let plain =
      All-append IsPlain (to_text n) (unit_text u) (IsPlain-digits (to_text n) digits)
        (IsPlain-unit_text u) in
    ap (λ limit. read_limit fl limit (split_unit limit))
      (ap to_lowercase (trim-plain text plain) ∙ to_lowercase-plain text plain)
    ∙ ap (read_limit fl text) (split_unit-to_text n u)
    ∙ read_limit-number fl text n (unit_size u) r small
