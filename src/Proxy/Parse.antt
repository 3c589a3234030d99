-- ===== src/Proxy/Parse.antt =====
-- src/proxy.rs: `parse_upgrade_response`, of the text of the response.
pub mod RoundTrip
use spawngate.Base.{ℕ, ◌&&◌, Option, none, some, List, [], ◌∷◌, if◌then◌else◌, ltb, leb}
use spawngate.Base.Text.{Text}
use spawngate.Base.Number.{parse_u16}
use spawngate.Base.Strings.{split_once, trim, lines}

-- The second of the parts that single spaces separate.
second_part : Text → Option Text
unfolding split_once
second_part line = elim (split_once b' ' line) [
  | none ↦ none
  | some (version, rest) ↦ elim (split_once b' ' rest) [
    | none ↦ some rest
    | some (code, reason) ↦ some code
  ]
]

-- `StatusCode::from_u16`
from_u16 : ℕ → Option ℕ
from_u16 n = if leb 100 n && ltb n 1000 then some n else none

header_of : Text → List (Text × Text) → List (Text × Text)
unfolding split_once trim
header_of line rest = elim (split_once b':' line) [
  | none ↦ rest
  | some (name, value) ↦ (trim name, trim value) ∷ rest
]

-- The lines up to the first empty one.
unfoldable pub parse_headers : List Text → List (Text × Text)
unfolding header_of
parse_headers [] = []
parse_headers ([] ∷ rest) = []
parse_headers ((c ∷ line) ∷ rest) = header_of (c ∷ line) (parse_headers rest)

parse_lines : List Text → Option (ℕ × List (Text × Text))
unfolding second_part from_u16 parse_headers parse_u16
parse_lines [] = none
parse_lines (status_line ∷ rest) = elim (second_part status_line) [
  | none ↦ none
  | some code ↦ elim (parse_u16 code) [
    | none ↦ none
    | some n ↦ elim (from_u16 n) [ none ↦ none | some status ↦ some (status, parse_headers rest) ]
  ]
]

unfoldable pub parse_upgrade_response : Text → Option (ℕ × List (Text × Text))
unfolding lines parse_lines
parse_upgrade_response s = parse_lines (lines s)
