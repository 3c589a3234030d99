-- ===== src/Proxy/Parse/RoundTrip.antt =====
-- The text of a response of HTTP/1.1, and how `parse_upgrade_response` reads it back.
use spawngate.Base.{ℕ, ◌<◌, ◌≤◌, ◌≡◌, refl, false, some, List, [], ◌∷◌, ◌++◌, arith, ◌==◌}
use spawngate.Base.Text.{Text, codes}
use spawngate.Base.Lists.{All, All-append}
use spawngate.Base.Number.{to_text, to_text-IsDigit, IsDigit, parse_u16-to_text}
use spawngate.Base.Strings.{split_once, trim, lines}
use spawngate.Base.Strings.Lines.{Without, lines_line, split_once-before, trim_space}
use spawngate.Proxy.Parse.{
  second_part, from_u16, header_of, parse_headers, parse_lines, parse_upgrade_response,
}

-- A header that stands on one line: its name has no colon, and neither it nor its value begins or ends
-- with white space.
pub record IsHeader (h : Text × Text) : Type 0 where
  pub name_colon : Without b':' h.0
  pub name_line : Without b'\n' h.0
  pub name_trim : trim h.0 ≡ h.0
  pub value_line : Without b'\n' h.1
  pub value_trim : trim h.1 ≡ h.1

abbrev pub header_line : Text × Text → Text
header_line (name, value) = name ++ (b':' ∷ b' ' ∷ value)

-- The lines of the headers, in front of what follows them.
abbrev pub header_block : List (Text × Text) → Text → Text
header_block [] rest = rest
header_block (h ∷ hs) rest = header_line h ++ (b'\r' ∷ b'\n' ∷ header_block hs rest)

header_line-Without : (h : Text × Text) → IsHeader h → Without b'\n' (header_line h)
header_line-Without (name, value) i =
    All-append (λ x. (x == b'\n') ≡ false) name (b':' ∷ b' ' ∷ value) i.name_line
      (refl, (refl, i.value_line))

header_of-header_line :
    (h : Text × Text) (rest : List (Text × Text))
    → IsHeader h
    → header_of (header_line h) rest ≡ h ∷ rest
unfolding header_of
header_of-header_line (name, value) rest i =
    rw
      (
        header_of,
        split_once-before b':' name (b' ' ∷ value) i.name_colon,
        trim_space value,
        i.name_trim,
        i.value_trim,
      )
      refl

parse_headers-line :
    (h : Text × Text) (ls : List Text)
    → parse_headers (header_line h ∷ ls) ≡ header_of (header_line h) (parse_headers ls)
unfolding parse_headers
parse_headers-line ([], value) ls = refl
parse_headers-line (c ∷ name, value) ls = refl

-- The headers are read back, and nothing that stands behind the empty line after them.
pub parse_headers-header_block :
    (hs : List (Text × Text)) (body : Text)
    → All IsHeader hs
    → parse_headers (lines (header_block hs (b'\r' ∷ b'\n' ∷ body))) ≡ hs
unfolding parse_headers
parse_headers-header_block [] body i = rw (lines_line [] body tt) refl
parse_headers-header_block (h ∷ hs) body (i, is) =
    rw
      (
        lines_line (header_line h) (header_block hs (b'\r' ∷ b'\n' ∷ body))
            (header_line-Without h i),
        parse_headers-line h (lines (header_block hs (b'\r' ∷ b'\n' ∷ body))),
        parse_headers-header_block hs body is,
      )
      (header_of-header_line h hs i)

-- A response with its status line, its headers and its body.
abbrev pub response_text : ℕ → Text → List (Text × Text) → Text → Text
response_text status reason headers body =
    (codes "HTTP/1.1 " ++ (to_text status ++ (b' ' ∷ reason)))
    ++ (b'\r' ∷ b'\n' ∷ header_block headers (b'\r' ∷ b'\n' ∷ body))

IsDigit-Without :
    (c : ℕ) (s : Text) → ((d : ℕ) → IsDigit d → (d == c) ≡ false) → All IsDigit s → Without c s
IsDigit-Without c [] ne h = tt
IsDigit-Without c (d ∷ s) ne (h, hs) = (ne d h, IsDigit-Without c s ne hs)

to_text-Without_space : (n : ℕ) → Without b' ' (to_text n)
to_text-Without_space n =
    IsDigit-Without b' ' (to_text n) (λ d h. ground (arith, h)) (to_text-IsDigit n)

to_text-Without_newline : (n : ℕ) → Without b'\n' (to_text n)
to_text-Without_newline n =
    IsDigit-Without b'\n' (to_text n) (λ d h. ground (arith, h)) (to_text-IsDigit n)

status_line-Without :
    (status : ℕ) (reason : Text)
    → Without b'\n' reason
    → Without b'\n' (codes "HTTP/1.1 " ++ (to_text status ++ (b' ' ∷ reason)))
status_line-Without status reason h =
    let rest =
      All-append (λ x. (x == b'\n') ≡ false) (to_text status) (b' ' ∷ reason)
        (to_text-Without_newline status) (refl, h) in
    All-append (λ x. (x == b'\n') ≡ false) (codes "HTTP/1.1 ") (to_text status ++ (b' ' ∷ reason))
      (refl, (refl, (refl, (refl, (refl, (refl, (refl, (refl, (refl, tt))))))))) rest

second_part-status_line :
    (status : ℕ) (reason : Text)
    → second_part (codes "HTTP/1.1 " ++ (to_text status ++ (b' ' ∷ reason))) ≡ some (to_text status)
unfolding second_part split_once
second_part-status_line status reason =
    rw (second_part, split_once-before b' ' (to_text status) reason (to_text-Without_space status))
      refl

from_u16-some : (n : ℕ) → 100 ≤ n → n < 1000 → from_u16 n ≡ some n
unfolding from_u16
from_u16-some n low high = ground arith

-- A response of HTTP/1.1 is read back: its status, if it has three digits, and its headers, if each stands
-- on one line with no white space at the ends of its name and value and no colon in its name; whatever
-- the reason on the status line and the body are.
pub parse_upgrade_response-response_text :
    (status : ℕ) (reason : Text) (headers : List (Text × Text)) (body : Text)
    → 100 ≤ status
    → status < 1000
    → Without b'\n' reason
    → All IsHeader headers
    → parse_upgrade_response (response_text status reason headers body) ≡ some (status, headers)
unfolding parse_upgrade_response parse_lines
parse_upgrade_response-response_text status reason headers body low high one_line hs =
    rw
      (
        lines_line (codes "HTTP/1.1 " ++ (to_text status ++ (b' ' ∷ reason)))
            (header_block headers (b'\r' ∷ b'\n' ∷ body))
            (status_line-Without status reason one_line),
        parse_lines,
        second_part-status_line status reason,
        parse_u16-to_text status (omega arith),
        from_u16-some status low high,
        parse_headers-header_block headers body hs,
      )
      refl
