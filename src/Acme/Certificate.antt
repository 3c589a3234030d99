-- ===== src/Acme/Certificate.antt =====
-- src/acme.rs: keys and certificates, and the check of the cache directory.
use spawngate.Base.{
  ℕ, ◌-◌, ◌*◌, ◌/◌, Bool, true, false, not, Option, none, some, List, [], ◌∷◌, ◌++◌, Result, ok,
  err, if◌then◌else◌, ltb,
}
use spawngate.Base.Text.{Text, codes, contains}
use spawngate.Base.Lists.{is_empty}
use spawngate.Base.Integer.{ℤ, pos, negsuc}
use spawngate.Acme.Library.{
  PemItem, pkcs1_key, pkcs8_key, sec1_key, other_item, CertificateParams, Library,
}

abbrev pub acme_alpn_oid : List ℕ
acme_alpn_oid = 1 ∷ 3 ∷ 6 ∷ 1 ∷ 5 ∷ 5 ∷ 7 ∷ 1 ∷ 31 ∷ []

-- The loop over the items of a file.
unfoldable pub load_private_key : List (Result Text PemItem) → Option Text
load_private_key [] = none
load_private_key (ok (pkcs1_key key) ∷ items) = some key
load_private_key (ok (pkcs8_key key) ∷ items) = some key
load_private_key (ok (sec1_key key) ∷ items) = some key
load_private_key (ok other_item ∷ items) = load_private_key items
load_private_key (err e ∷ items) = none

-- `filter_map(|c| c.ok())`
unfoldable pub readable : List (Result Text Text) → List Text
readable [] = []
readable (ok c ∷ cs) = c ∷ readable cs
readable (err e ∷ cs) = readable cs

-- Of the time stamp at which the certificate expires, and of the clock.
unfoldable pub valid_for_days : ℤ → ℕ → ℕ → Bool
valid_for_days (negsuc n) now days = false
valid_for_days (pos expiry) now days =
    if ltb expiry now then false else not (ltb ((expiry - now) / (24 * 60 * 60)) days)

-- The extension with the digest as an OCTET STRING of 32 bytes.
unfoldable pub acme_identifier : Text → CertificateParams → CertificateParams
acme_identifier digest p = record p {
  is_ca = false;
  digital_signature_only = true;
  custom_extensions = p.custom_extensions ++ ((acme_alpn_oid, 0x04 ∷ 0x20 ∷ digest) ∷ []);
}

-- What `validate_cache_dir` asks of the file system and of the path type.
pub record Paths : Type 0 where
  pub exists : Text → Bool
  pub canonicalize : Text → Result Text Text
  pub is_dir : Text → Bool
  pub parent : Text → Option Text
  pub file_name : Text → Option Text
  pub join : Text → Text → Text

module _ (fs : Paths) where
  canonical_dir : Text → Result Text Text
  canonical_dir path = elim (fs.canonicalize path) [
    | err e ↦
        err (codes "Failed to canonicalize ACME cache directory '" ++ (path ++ (codes "': " ++ e)))
    | ok canonical ↦
        if fs.is_dir canonical
        then ok canonical
        else err (codes "ACME cache path '" ++ (path ++ codes "' exists but is not a directory"))
  ]

  -- The path in its parent, which exists.
  in_parent : Text → Text → Result Text Text
  in_parent path parent = elim (fs.canonicalize parent) [
    | err e ↦ err (codes "Failed to canonicalize parent directory: " ++ e)
    | ok canonical ↦ elim (fs.file_name path) [
      | none ↦ ok path
      | some name ↦ ok (fs.join canonical name)
    ]
  ]

  fresh_dir : Text → Option Text → Result Text Text
  unfolding in_parent
  fresh_dir path none = ok path
  fresh_dir path (some parent) =
      if is_empty parent
      then ok path
      else if fs.exists parent
      then in_parent path parent
      else ok path

  unfoldable pub validate_cache_dir : Text → Result Text Text
  unfolding canonical_dir fresh_dir contains
  validate_cache_dir path =
      if contains (codes "..") path
      then err (codes "ACME cache directory path must not contain '..'")
      else if fs.exists path
      then canonical_dir path
      else fresh_dir path (fs.parent path)

module _ {W O K N C : Type 0} (lib : Library W O K N C) where
  unfoldable pub is_cert_valid_for_days : Text → ℕ → W → Bool
  unfolding valid_for_days
  is_cert_valid_for_days cert days w = elim (lib.not_after cert) [
    | err e ↦ false
    | ok expiry ↦ valid_for_days expiry (lib.now w) days
  ]
