-- ===== src/Proxy/Upgrade/Raw.antt =====
-- The raw request of an upgrade, as it is read from its text.
use spawngate.Base.{
  ℕ, ◌≡◌, refl, ap, ◌∙◌, none, some, List, [], ◌∷◌, ◌++◌, arith, unwrap_or, inl, inr, Option-cases,
  false,
}
use mathlib.Core.List.{append_assoc}
use spawngate.Base.Text.{Text, codes}
use spawngate.Base.Lists.{All, All-append}
use spawngate.Base.Dict.{Dict}
use spawngate.Base.Number.{to_text, IsDigit, to_text-IsDigit}
use spawngate.Base.Strings.{is_whitespace, trim_start, trim, lines}
use spawngate.Base.Strings.Lines.{Without, Solid, lines_line, trim-Solid}
use spawngate.Proxy.Http.{Request, HeaderValue}
use spawngate.Proxy.Parse.{parse_headers}
use spawngate.Proxy.Parse.RoundTrip.{
  IsHeader, header_line, header_block, parse_headers-header_block,
}
use spawngate.Proxy.Upgrade.{header_lines, build_upgrade_request}

-- The headers whose values are visible ASCII.
abbrev pub visible : Dict HeaderValue → List (Text × Text)
visible [] = []
visible ((name, value) ∷ rest) = elim value.to_str [
  | none ↦ visible rest
  | some v ↦ (name, v) ∷ visible rest
]

abbrev pub host_header : ℕ → Text × Text
host_header port = (codes "Host", codes "127.0.0.1:" ++ to_text port)

header_lines-header_block :
    (headers : Dict HeaderValue) (port : ℕ)
    → header_lines headers ++ (header_line (host_header port) ++ codes "\r\n\r\n")
      ≡ header_block (visible headers ++ (host_header port ∷ [])) (codes "\r\n")
unfolding header_lines
header_lines-header_block [] port = refl
header_lines-header_block ((name, value) ∷ rest) port = elim (Option-cases value.to_str) [
  | inl e ↦ rw e (header_lines-header_block rest port)
  | inr (v, e) ↦ rw (e, ← header_lines-header_block rest port) (simp append_assoc)
]

abbrev pub request_line : Request → Text
request_line req =
    req.method ++ (codes " " ++ (unwrap_or req.path_and_query (codes "/") ++ codes " HTTP/1.1"))

build_upgrade_request-header_block :
    (req : Request) (port : ℕ)
    → build_upgrade_request req port
      ≡ request_line req
        ++ (b'\r'
            ∷ b'\n'
            ∷ header_block (visible req.headers ++ (host_header port ∷ [])) (codes "\r\n"))
unfolding build_upgrade_request
build_upgrade_request-header_block req port =
    rw (← header_lines-header_block req.headers port) (simp append_assoc)

loopback-Solid : Solid (codes "127.0.0.1:")
unfolding is_whitespace
loopback-Solid = (refl, (refl, (refl, (refl, (refl, (refl, (refl, (refl, (refl, (refl, tt))))))))))

IsDigit-Solid : (s : Text) → All IsDigit s → Solid s
unfolding is_whitespace
IsDigit-Solid [] h = tt
IsDigit-Solid (c ∷ s) (h, hs) = (ground (arith, h), IsDigit-Solid s hs)

Solid-Without_newline : (s : Text) → Solid s → Without b'\n' s
unfolding is_whitespace
Solid-Without_newline [] h = tt
Solid-Without_newline (c ∷ s) (h, hs) = (ground (arith, h), Solid-Without_newline s hs)

host_header-IsHeader : (port : ℕ) → IsHeader (host_header port)
unfolding trim trim_start is_whitespace
host_header-IsHeader port =
    let solid : Solid (host_header port).1 =
      All-append (λ c. is_whitespace c ≡ false) (codes "127.0.0.1:") (to_text port) loopback-Solid
        (IsDigit-Solid (to_text port) (to_text-IsDigit port)) in
    record {
      name_colon = (refl, (refl, (refl, (refl, tt))));
      name_line = (refl, (refl, (refl, (refl, tt))));
      name_trim = refl;
      value_line = Solid-Without_newline (host_header port).1 solid;
      value_trim = trim-Solid (host_header port).1 solid;
    }

-- What a backend reads of the raw request of an upgrade: the request line, then each header of the client
-- whose value is visible ASCII, and after them the address of the backend as one more Host header, also
-- where the client's headers have one.
pub lines-build_upgrade_request :
    (req : Request) (port : ℕ)
    → Without b'\n' (request_line req)
    → All IsHeader (visible req.headers)
    → (rest : List Text) × (lines (build_upgrade_request req port) ≡ request_line req ∷ rest)
      × (parse_headers rest ≡ visible req.headers ++ (host_header port ∷ []))
lines-build_upgrade_request req port one_line hs =
    let all = visible req.headers ++ (host_header port ∷ []) in
    (
      lines (header_block all (codes "\r\n")),
      ap lines (build_upgrade_request-header_block req port)
          ∙ lines_line (request_line req) (header_block all (codes "\r\n")) one_line,
      parse_headers-header_block all [] (
          All-append IsHeader (visible req.headers) (host_header port ∷ []) hs
            (host_header-IsHeader port, tt)),
    )
