-- ===== src/Proxy/Hostnames.antt =====
-- Which hostnames a request can have.
use spawngate.Base.{
  ℕ, ◌≤◌, ◌≡◌, ◌≢◌, refl, ap, true, some, [], ◌∷◌, ◌++◌, ◌⊎◌, inl, inr, arith, Option-cases, suc,
}
use spawngate.Base.Text.{Text, codes, before, to_lowercase, lower}
use spawngate.Base.Lists.{length, all, All}
use spawngate.Proxy.Http.{Request, header_str}
use spawngate.Proxy.Hostname.{is_host_char, check_hostname, extract_hostname, max_hostname_len}

-- A lower-case letter, a digit, a hyphen or a dot.
abbrev pub IsHostChar : ℕ → Type 0
IsHostChar c = ((b'a' ≤ c) × (c ≤ b'z')) ⊎ (((b'0' ≤ c) × (c ≤ b'9')) ⊎ ((c ≡ b'-') ⊎ (c ≡ b'.')))

abbrev pub IsHostname : Text → Type 0
IsHostname h = (length h ≤ max_hostname_len) × All IsHostChar h

IsHostChar-lower : (c : ℕ) → is_host_char c ≡ true → IsHostChar (lower c)
unfolding is_host_char lower
IsHostChar-lower c h = ground arith

length-to_lowercase : (s : Text) → length (to_lowercase s) ≡ length s
unfolding to_lowercase
length-to_lowercase [] = refl
length-to_lowercase (c ∷ s) = ap suc (length-to_lowercase s)

All-to_lowercase : (s : Text) → all is_host_char s ≡ true → All IsHostChar (to_lowercase s)
unfolding to_lowercase
All-to_lowercase [] h = tt
All-to_lowercase (c ∷ s) h = (IsHostChar-lower c (ground arith), All-to_lowercase s (ground arith))

check_hostname-parts :
    (s h : Text)
    → check_hostname s ≡ some h
    → (h ≡ to_lowercase s) × (length s ≤ max_hostname_len) × (all is_host_char s ≡ true)
unfolding check_hostname
check_hostname-parts s h e = (ground arith, ground arith, ground arith)

IsHostname-check : (s h : Text) → check_hostname s ≡ some h → IsHostname h
IsHostname-check s h e =
    let (lowered, short, good) = check_hostname-parts s h e in
    rw lowered (rw length-to_lowercase short, All-to_lowercase s good)

-- A hostname that the proxy takes from a request is at most 253 characters long, and each of them
-- is a lower-case letter, a digit, a hyphen or a dot, whatever the header holds.
pub extract_hostname-IsHostname :
    (req : Request) (h : Text) → extract_hostname req ≡ some h → IsHostname h
unfolding extract_hostname
extract_hostname-IsHostname req h e = elim (Option-cases (header_str (codes "host") req)) [
  | inl n ↦ absurd (ground (arith, n))
  | inr (s, f) ↦ IsHostname-check (before b':' s) h (ground (arith, f))
]

before-hostname : (h rest : Text) → All IsHostChar h → before b':' (h ++ (b':' ∷ rest)) ≡ h
unfolding before
before-hostname [] rest a = refl
before-hostname (c ∷ h) rest (g, a) = ground (arith, before-hostname h rest a)

before-hostname_alone : (h : Text) → All IsHostChar h → before b':' h ≡ h
unfolding before
before-hostname_alone [] a = refl
before-hostname_alone (c ∷ h) (g, a) = ground (arith, before-hostname_alone h a)

all-IsHostChar : (h : Text) → All IsHostChar h → all is_host_char h ≡ true
unfolding is_host_char
all-IsHostChar [] a = refl
all-IsHostChar (c ∷ h) (g, a) = ground (arith, all-IsHostChar h a)

to_lowercase-IsHostChar : (h : Text) → All IsHostChar h → to_lowercase h ≡ h
unfolding to_lowercase lower
to_lowercase-IsHostChar [] a = refl
to_lowercase-IsHostChar (c ∷ h) (g, a) = ground (arith, to_lowercase-IsHostChar h a)

check-IsHostname : (h : Text) → IsHostname h → check_hostname h ≡ some h
unfolding check_hostname
check-IsHostname h (short, good) =
    ground (arith, all-IsHostChar h good, to_lowercase-IsHostChar h good)

-- A hostname of lower-case letters, digits, hyphens and dots, of at most 253 characters, is found, with
-- a port behind it or without.
pub extract_hostname-some :
    (req : Request) (h port : Text)
    → IsHostname h
    → (header_str (codes "host") req ≡ some h)
      ⊎ (header_str (codes "host") req ≡ some (h ++ (b':' ∷ port)))
    → extract_hostname req ≡ some h
unfolding extract_hostname
extract_hostname-some req h port v (inl e) =
    ground (arith, e, before-hostname_alone h v.1, check-IsHostname h v)
extract_hostname-some req h port v (inr e) =
    ground (arith, e, before-hostname h port v.1, check-IsHostname h v)

All-append_right : (pre rest : Text) → All IsHostChar (pre ++ rest) → All IsHostChar rest
All-append_right [] rest a = a
All-append_right (c ∷ pre) rest a = All-append_right pre rest a.1

-- A backend whose configured name has a capital letter is never the host of a request.
pub extract_hostname-ne_capital :
    (req : Request) (pre post : Text) (c : ℕ)
    → b'A' ≤ c
    → c ≤ b'Z'
    → extract_hostname req ≢ some (pre ++ (c ∷ post))
extract_hostname-ne_capital req pre post c lo hi e =
    let bad = All-append_right pre (c ∷ post) (extract_hostname-IsHostname req _ e).1 in
    absurd (ground (arith, bad.0))
