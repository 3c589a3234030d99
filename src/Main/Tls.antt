-- ===== src/Main/Tls.antt =====
-- src/main.rs: where the certificates of the HTTPS server come from.
use spawngate.Base.{
  Option, none, some, List, [], ◌∷◌, ◌++◌, Result, ok, err, ◌>>=◌, ◌>>◌, if◌then◌else◌,
}
use spawngate.Base.Text.{Text, codes}
use spawngate.Config.{AcmeChallengeType, AcmeConfig, ServerConfig, acme_enabled, tls_enabled}
use spawngate.Acme.Library.{PemItem, pkcs1_key, pkcs8_key, sec1_key, other_item, KeyPair}
use spawngate.Acme.Challenges.{AcmeManager}
use spawngate.Acme.Certificate.{Paths}
use spawngate.Acme.Order.{context}
use spawngate.Acme.Manager.{new_manager}

-- A TLS acceptor asks the manager's resolver, or has one certificate.
pub data TlsAcceptor : Type 0 where
  cert_resolver : TlsAcceptor
  single_cert : (certs : List Text) (key : Text) → TlsAcceptor

-- The files and the TLS libraries at the start.
pub record Host : Type 0 where
  pub paths : Paths
  pub create_dir_all : Text → Result Text (Unit {0})
  pub open_file : Text → Result Text Text
  pub pem_certs : Text → List (Result Text Text)
  pub pem_items : Text → List (Result Text PemItem)
  -- the certificate and the key pair
  pub simple_self_signed : List Text → Result Text (Text × KeyPair)
  pub private_key_of : Text → Result Text Text
  pub with_single_cert : List Text → Text → Result Text (Unit {0})

-- `collect::<Result<Vec<_>, _>>`
unfoldable pub collect {ℓ} : {A : Type ℓ} → List (Result Text A) → Result Text (List A)
collect [] = ok []
collect (err e ∷ rest) = err e
collect (ok a ∷ rest) = do others ← collect rest; ok (a ∷ others)

unfoldable pub in_file : Text → Text → Text
in_file what path = what ++ (path ++ codes ": ")

not_empty : Text → List Text → Result Text (List Text)
not_empty path [] = err (codes "No certificates found in " ++ path)
not_empty path (c ∷ cs) = ok (c ∷ cs)

-- The loop over the items of a file.
unfoldable pub first_key : Text → List (Result Text PemItem) → Result Text Text
unfolding in_file
first_key path [] = err (codes "No private key found in " ++ path)
first_key path (err e ∷ items) = err (in_file (codes "Failed to parse key from ") path ++ e)
first_key path (ok (pkcs1_key key) ∷ items) = ok key
first_key path (ok (pkcs8_key key) ∷ items) = ok key
first_key path (ok (sec1_key key) ∷ items) = ok key
first_key path (ok other_item ∷ items) = first_key path items

-- TLS-ALPN-01 has an acceptor at once, and HTTP-01 none.
unfoldable pub resolver_for : AcmeChallengeType → Option TlsAcceptor
resolver_for AcmeChallengeType.tls_alpn01 = some cert_resolver
resolver_for AcmeChallengeType.http01 = none

module _ (host : Host) where
  unfoldable pub load_certs : Text → Result Text (List Text)
  unfolding collect in_file context not_empty
  load_certs path = do
    file ← context (in_file (codes "Failed to open certificate file ") path) (host.open_file path)
    certs ←
        context (in_file (codes "Failed to parse certificates from ") path)
          (collect (host.pem_certs file))
    not_empty path certs

  unfoldable pub load_key : Text → Result Text Text
  unfolding first_key in_file context
  load_key path = do
    file ← context (in_file (codes "Failed to open key file ") path) (host.open_file path)
    first_key path (host.pem_items file)

  unfoldable pub generate_self_signed_cert : Result Text (List Text × Text)
  unfolding context
  generate_self_signed_cert = do
    (cert, key_pair) ←
        context (codes "Failed to generate self-signed certificate: ")
          (host.simple_self_signed (codes "localhost" ∷ codes "127.0.0.1" ∷ []))
    key ← context (codes "Failed to serialize private key: ") (host.private_key_of key_pair.der)
    ok (cert ∷ [], key)

  unfoldable pub load_files : Option Text → Option Text → Result Text (List Text × Text)
  unfolding load_certs load_key generate_self_signed_cert
  load_files (some cert_path) (some key_path) = do
    certs ← load_certs cert_path
    key ← load_key key_path
    ok (certs, key)
  load_files _ _ = generate_self_signed_cert

  unfoldable pub acceptor_of : List Text × Text → Result Text TlsAcceptor
  unfolding context
  acceptor_of (certs, key) = do
    context (codes "TLS configuration error: ") (host.with_single_cert certs key)
    ok (single_cert certs key)

  module _ (K : Type 0) where
    unfoldable pub with_acme :
        AcmeConfig → Result Text (Option TlsAcceptor × Option (AcmeManager K))
    unfolding new_manager resolver_for context
    with_acme acme = do
      context (codes "Failed to create ACME cache directory '" ++ (acme.cache_dir ++ codes "': "))
          (host.create_dir_all acme.cache_dir)
      manager ← new_manager host.paths acme
      ok (resolver_for acme.challenge_type, some manager)

    unfoldable pub with_files :
        ServerConfig → Result Text (Option TlsAcceptor × Option (AcmeManager K))
    unfolding load_files acceptor_of
    with_files server = do
      loaded ← load_files server.tls_cert server.tls_key
      acceptor ← acceptor_of loaded
      ok (some acceptor, none)

    -- ACME goes before certificate files, and those before a certificate of the program's own.
    unfoldable pub load_tls :
        ServerConfig → Result Text (Option TlsAcceptor × Option (AcmeManager K))
    unfolding with_acme with_files
    load_tls server =
        if acme_enabled server
        then with_acme server.acme
        else if tls_enabled server
        then with_files server
        else ok (none, none)
