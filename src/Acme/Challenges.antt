-- ===== src/Acme/Challenges.antt =====
-- src/acme.rs: the pending challenges, and the certificates that the manager holds.
use spawngate.Base.{Bool, Option, none, some, List, if◌then◌else◌}
use spawngate.Base.Text.{Text, codes, includes}
use spawngate.Base.Dict.{Dict, get, insert, remove}
use spawngate.Config.{AcmeConfig}
use spawngate.Acme.Action.{Action, done}

abbrev pub acme_tls_alpn_name : Text
acme_tls_alpn_name = codes "acme-tls/1"

pub record CertifiedKey (K : Type 0) : Type 0 where
  pub cert : List Text
  pub key : K

pub record TlsAlpn01Resolver (K : Type 0) : Type 0 where
  pub challenge_certs : Dict (CertifiedKey K)
  pub regular_cert : Option (CertifiedKey K)

-- `cert_tx` by the value that it sent last, which `cert_rx` keeps alive.
pub record AcmeManager (K : Type 0) : Type 0 where
  pub config : AcmeConfig
  pub cache_dir : Text
  pub http01_challenges : Dict Text
  pub tls_alpn01_resolver : TlsAlpn01Resolver K
  pub current_cert : Option (List Text × Text)
  pub cert_tx : Option (CertifiedKey K)

-- What an action of the manager reads and changes.
pub record State (W K : Type 0) : Type 0 where
  pub world : W
  pub manager : AcmeManager K

-- What a client sends in its TLS handshake.
pub record ClientHello : Type 0 where
  pub alpn : Option (List Text)
  pub server_name : Option Text

unfoldable pub is_acme_challenge : ClientHello → Bool
unfolding includes
is_acme_challenge hello = elim hello.alpn [
  | none ↦ Bool.false
  | some names ↦ includes names acme_tls_alpn_name
]

module _ {K : Type 0} where
  -- `Http01Challenges::set`
  unfoldable pub set_challenge : Text → Text → AcmeManager K → AcmeManager K
  set_challenge token key_authorization m = record m {
    http01_challenges = insert token key_authorization m.http01_challenges;
  }

  -- `Http01Challenges::get`
  unfoldable pub get_challenge : Text → AcmeManager K → Option Text
  get_challenge token m = get token m.http01_challenges

  -- `Http01Challenges::remove`
  unfoldable pub remove_challenge : Text → AcmeManager K → AcmeManager K
  remove_challenge token m = record m { http01_challenges = remove token m.http01_challenges }

  unfoldable pub set_challenge_cert : Text → CertifiedKey K → AcmeManager K → AcmeManager K
  set_challenge_cert domain cert m = record m {
    tls_alpn01_resolver = record m.tls_alpn01_resolver {
      challenge_certs = insert domain cert m.tls_alpn01_resolver.challenge_certs;
    };
  }

  unfoldable pub remove_challenge_cert : Text → AcmeManager K → AcmeManager K
  remove_challenge_cert domain m = record m {
    tls_alpn01_resolver = record m.tls_alpn01_resolver {
      challenge_certs = remove domain m.tls_alpn01_resolver.challenge_certs;
    };
  }

  unfoldable pub set_regular_cert : CertifiedKey K → AcmeManager K → AcmeManager K
  set_regular_cert cert m = record m {
    tls_alpn01_resolver = record m.tls_alpn01_resolver { regular_cert = some cert };
  }

  unfoldable pub regular_unless : Bool → Option Text → TlsAlpn01Resolver K → Option (CertifiedKey K)
  unfolding get
  regular_unless is_acme_challenge none r = r.regular_cert
  regular_unless is_acme_challenge (some sni) r =
      if is_acme_challenge then get sni r.challenge_certs else r.regular_cert

  -- `ResolvesServerCert::resolve`
  unfoldable pub resolve : TlsAlpn01Resolver K → ClientHello → Option (CertifiedKey K)
  unfolding regular_unless is_acme_challenge
  resolve r hello = regular_unless (is_acme_challenge hello) hello.server_name r

module _ {W K : Type 0} where
  -- An action that only changes the manager.
  abbrev pub modify : (AcmeManager K → AcmeManager K) → Action (State W K) (Unit {0})
  modify f s = (record s { manager = f s.manager }, done tt)
