-- ===== src/Base/Strings.antt =====
-- Operations of the standard library on strings, as the sources use them.
pub mod Lines
use Prim.Native.Nat.{ℕ, zero, suc}
use mathlib.Core.Bool.{Bool, true, false, ◌&&◌, ◌||◌}
use mathlib.Core.List.{List, [], ◌∷◌, reverse}
use mathlib.Core.Option.{Option, none, some}
use spawngate.Base.Tests.{leb, ◌==◌, if◌then◌else◌}
use spawngate.Base.Text.{Text, text_eq, strip_prefix}
use spawngate.Base.Lists.{length}

-- `char::is_whitespace`
unfoldable pub is_whitespace : ℕ → Bool
is_whitespace c =
    (leb 9 c && leb c 13)
    || (c == 0x20
        || (c == 0x85
            || (c == 0xa0
                || (c == 0x1680
                    || ((leb 0x2000 c && leb c 0x200a)
                        || (c == 0x2028
                            || (c == 0x2029 || (c == 0x202f || (c == 0x205f || c == 0x3000)))))))))

unfoldable pub trim_start : Text → Text
unfolding is_whitespace
trim_start [] = []
trim_start (c ∷ s) = let rest = trim_start s in if is_whitespace c then rest else c ∷ s

unfoldable pub trim_end : Text → Text
unfolding trim_start
trim_end s = reverse (trim_start (reverse s))

unfoldable pub trim : Text → Text
unfolding trim_start
trim s = reverse (trim_start (reverse (trim_start s)))

-- `split_once(c)`
unfoldable pub split_once : ℕ → Text → Option (Text × Text)
split_once c [] = none
split_once c (x ∷ s) =
    let rest = elim (split_once c s) as (λ _. Option (Text × Text)) [
      | none ↦ none
      | some (a, b) ↦ some (x ∷ a, b)
    ] in
    if x == c then some ([], s) else rest

-- The first line, without its end, and the text after it. `lines()` takes a `\r` before `\n` off.
strip_cr : Text → Text
strip_cr [] = []
strip_cr (c ∷ []) = if c == b'\r' then [] else c ∷ []
strip_cr (c ∷ d ∷ s) = c ∷ strip_cr (d ∷ s)

-- `str::lines`, of the line read so far and the rest. An end of text with nothing before it is no
-- line, and an `\r` is dropped only before `\n`.
lines_from : Text → Text → List Text
unfolding strip_cr
lines_from [] [] = []
lines_from (c ∷ cur) [] = reverse (c ∷ cur) ∷ []
lines_from cur (c ∷ s) =
    let ended = strip_cr (reverse cur) ∷ lines_from [] s in
    let longer = lines_from (c ∷ cur) s in if c == b'\n' then ended else longer

unfoldable pub lines : Text → List Text
unfolding lines_from
lines s = lines_from [] s

-- `split_whitespace`, of the word read so far and the rest.
words_from : Text → Text → List Text
unfolding is_whitespace
words_from [] [] = []
words_from (c ∷ cur) [] = reverse (c ∷ cur) ∷ []
words_from [] (c ∷ s) =
    let skipped = words_from [] s in
    let longer = words_from (c ∷ []) s in if is_whitespace c then skipped else longer
words_from (d ∷ cur) (c ∷ s) =
    let ended = reverse (d ∷ cur) ∷ words_from [] s in
    let longer = words_from (c ∷ d ∷ cur) s in if is_whitespace c then ended else longer

unfoldable pub split_whitespace : Text → List Text
unfolding words_from
split_whitespace s = words_from [] s

-- `nth(1)`
unfoldable pub second : List Text → Option Text
second [] = none
second (x ∷ []) = none
second (x ∷ y ∷ rest) = some y

-- `ends_with`
unfoldable pub ends_with : Text → Text → Bool
unfolding text_eq
ends_with p [] = text_eq p []
ends_with p (c ∷ s) = text_eq p (c ∷ s) || ends_with p s

-- Whether the text is `left`, followed by copies of `p`, of which there is at least one character.
unfoldable pub repeats : Text → Text → Text → Bool
repeats p [] [] = true
repeats [] [] (c ∷ s) = false
repeats (x ∷ p) [] (c ∷ s) = x == c && repeats (x ∷ p) p s
repeats p (x ∷ left) [] = false
repeats p (x ∷ left) (c ∷ s) = x == c && repeats p left s

-- `trim_end_matches`: the copies of the pattern at the end are taken off.
unfoldable pub trim_end_matches : Text → Text → Text
unfolding repeats
trim_end_matches p [] = []
trim_end_matches p (c ∷ s) =
    let rest = c ∷ trim_end_matches p s in if repeats p p (c ∷ s) then [] else rest

-- `trim_start_matches`, whose pattern is not empty here: fuel is the length of the text.
strip_copies : Text → ℕ → Text → Text
unfolding strip_prefix
strip_copies p zero s = s
strip_copies p (suc fuel) s = elim (strip_prefix p s) [ none ↦ s | some r ↦ strip_copies p fuel r ]

unfoldable pub trim_start_matches : Text → Text → Text
unfolding strip_copies
trim_start_matches p s = strip_copies p (length s) s
