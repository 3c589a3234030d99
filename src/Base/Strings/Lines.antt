-- ===== src/Base/Strings/Lines.antt =====
-- How lines are read, and texts split and trimmed, with any text behind them.
use mathlib.Core.Path.{◌≡◌, refl, ap, sym, ◌∙◌}
use mathlib.Core.Bool.{Bool, true, false}
use mathlib.Core.List.{
  [], ◌∷◌, ◌++◌, reverse, reverse-cons, reverse-reverse, append-nil, append_assoc,
}
use mathlib.Core.Option.{some}
use Prim.Native.Nat.{ℕ}
use native.Mathlib.Omega.{arith}
use mathlib.Core.Logic.{inl, inr}
use spawngate.Base.Tests.{◌==◌, if◌then◌else◌, Bool-cases}
use spawngate.Base.Text.{Text}
use spawngate.Base.Lists.{All, All-append}
use spawngate.Base.Strings.{
  is_whitespace, trim_start, trim_end, trim, split_once, strip_cr, lines_from, lines,
}

-- The character is not in the text.
abbrev pub Without : ℕ → Text → Type 0
Without c = All (λ x. (x == c) ≡ false)

abbrev pub lacks : ℕ → Text → Bool
lacks c [] = true
lacks c (x ∷ s) = if x == c then false else lacks c s

pub lacks-Without : (c : ℕ) (s : Text) → lacks c s ≡ true → Without c s
lacks-Without c [] e = tt
lacks-Without c (x ∷ s) e = (ground arith, lacks-Without c s (ground arith))

strip_cr-append : (s : Text) → strip_cr (s ++ (b'\r' ∷ [])) ≡ s
unfolding strip_cr
strip_cr-append [] = refl
strip_cr-append (c ∷ []) = refl
strip_cr-append (c ∷ d ∷ s) = ap (◌∷◌ c) (strip_cr-append (d ∷ s))

lines_from-step :
    (cur : Text) (c : ℕ) (s : Text)
    → (c == b'\n') ≡ false
    → lines_from cur (c ∷ s) ≡ lines_from (c ∷ cur) s
unfolding lines_from
lines_from-step [] c s h = rw h refl
lines_from-step (d ∷ cur) c s h = rw h refl

lines_from-ended :
    (cur s : Text) → lines_from cur (b'\n' ∷ s) ≡ strip_cr (reverse cur) ∷ lines_from [] s
unfolding lines_from
lines_from-ended [] s = refl
lines_from-ended (d ∷ cur) s = refl

lines_from-line :
    (cur line rest : Text)
    → Without b'\n' line
    → lines_from cur (line ++ (b'\r' ∷ b'\n' ∷ rest)) ≡ (reverse cur ++ line) ∷ lines_from [] rest
lines_from-line cur [] rest h =
    lines_from-step cur b'\r' (b'\n' ∷ rest) refl
    ∙ lines_from-ended (b'\r' ∷ cur) rest
    ∙ ap (λ l. strip_cr l ∷ lines_from [] rest) (reverse-cons b'\r' cur)
    ∙ ap (λ l. l ∷ lines_from [] rest)
        (strip_cr-append (reverse cur) ∙ sym (append-nil (reverse cur)))
lines_from-line cur (c ∷ line) rest (h, hs) =
    lines_from-step cur c (line ++ (b'\r' ∷ b'\n' ∷ rest)) h
    ∙ lines_from-line (c ∷ cur) line rest hs
    ∙ ap (λ l. l ∷ lines_from [] rest)
        (ap (λ l. l ++ line) (reverse-cons c cur) ∙ append_assoc (reverse cur) (c ∷ []) line)

-- A line that ends in `\r\n` is the first one, and the others are those of the text behind it.
pub lines_line :
    (line rest : Text)
    → Without b'\n' line
    → lines (line ++ (b'\r' ∷ b'\n' ∷ rest)) ≡ line ∷ lines rest
unfolding lines
lines_line line rest h = lines_from-line [] line rest h

pub split_once-before :
    (c : ℕ) (s rest : Text) → Without c s → split_once c (s ++ (c ∷ rest)) ≡ some (s, rest)
unfolding split_once
split_once-before c [] rest h = ground arith
split_once-before c (x ∷ s) rest (h, hs) = rw (h, split_once-before c s rest hs) refl

pub trim_space : (s : Text) → trim (b' ' ∷ s) ≡ trim s
unfolding trim is_whitespace
trim_space s = refl

-- No character of the text is white space.
abbrev pub Solid : Text → Type 0
Solid = All (λ c. is_whitespace c ≡ false)

trim_start-Solid : (s : Text) → Solid s → trim_start s ≡ s
unfolding trim_start
trim_start-Solid [] h = refl
trim_start-Solid (c ∷ s) (h, hs) = rw h refl

Solid-reverse : (s : Text) → Solid s → Solid (reverse s)
Solid-reverse [] h = tt
Solid-reverse (c ∷ s) (h, hs) =
    rw (reverse-cons c s)
      (All-append (λ d. is_whitespace d ≡ false) (reverse s) (c ∷ []) (Solid-reverse s hs) (h, tt))

pub trim-Solid : (s : Text) → Solid s → trim s ≡ s
unfolding trim
trim-Solid s h =
    rw (trim_start-Solid s h, trim_start-Solid (reverse s) (Solid-reverse s h)) (reverse-reverse s)

trim_start-first : (c : ℕ) (s : Text) → is_whitespace c ≡ false → trim_start (c ∷ s) ≡ c ∷ s
unfolding trim_start
trim_start-first c s w = rw w refl

trim_start-trim_start : (s : Text) → trim_start (trim_start s) ≡ trim_start s
unfolding trim_start
trim_start-trim_start [] = refl
trim_start-trim_start (c ∷ s) = elim (Bool-cases (is_whitespace c)) [
  | inl w ↦ rw w (trim_start-trim_start s)
  | inr w ↦ ap trim_start (trim_start-first c s w)
]

pub trim_end-trim_end : (s : Text) → trim_end (trim_end s) ≡ trim_end s
unfolding trim_end
trim_end-trim_end s =
    rw (reverse-reverse (trim_start (reverse s)), trim_start-trim_start (reverse s)) refl
