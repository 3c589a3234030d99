-- ===== src/Acme/Library.antt =====
-- What src/acme.rs uses of its libraries, of the clock and of the files. They act on a world `W`, which
-- holds the ACME server too. Certificates and keys are the bytes that the code passes on.
use spawngate.Base.{ℕ, Bool, Option, List, Result}
use spawngate.Base.Text.{Text}
use spawngate.Base.Integer.{ℤ}

pub data ChallengeType : Type 0 where
  http01 tls_alpn01 : ChallengeType
  other_challenge : Text → ChallengeType

pub record Challenge : Type 0 where
  pub kind : ChallengeType
  pub url : Text
  pub token : Text

pub data AuthorizationStatus : Type 0 where
  pending valid invalid : AuthorizationStatus
  other_status : Text → AuthorizationStatus

pub record Authorization : Type 0 where
  -- the domain
  pub identifier : Text
  pub status : AuthorizationStatus
  pub challenges : List Challenge

pub data OrderStatus : Type 0 where
  pending ready processing valid invalid : OrderStatus

pub record KeyAuthorization : Type 0 where
  pub text : Text
  pub digest : Text

pub record NewAccount : Type 0 where
  pub contact : List Text
  pub terms_of_service_agreed : Bool
  pub only_return_existing : Bool

-- `CertificateParams`, as far as it is set. An extension has an object identifier and content.
pub record CertificateParams : Type 0 where
  pub names : List Text
  pub common_names : List Text
  pub is_ca : Bool
  pub digital_signature_only : Bool
  pub custom_extensions : List (List ℕ × Text)

-- A key pair by its two forms.
pub record KeyPair : Type 0 where
  pub der : Text
  pub pem : Text

pub data PemItem : Type 0 where
  pkcs1_key pkcs8_key sec1_key : Text → PemItem
  other_item : PemItem

-- `O` is an order, `K` a signing key, `N` an account, and `C` its credentials.
pub record Library (W O K N C : Type 0) : Type 0 where
  -- the clock, in seconds since 1970, where 0 is what the code takes for an error
  pub now : W → ℕ
  pub sleep : ℕ → W → W
  pub join : Text → Text → Text
  pub exists : Text → W → Bool
  pub read : Text → W → Result Text Text
  -- with the mode, if one is set
  pub write : Option ℕ → Text → Text → W → W × Result Text (Unit {0})
  pub create_dir_all : Text → W → W × Result Text (Unit {0})
  pub credentials_of : Text → Result Text C
  pub credentials_text : C → Result Text Text
  pub from_credentials : C → W → W × Result Text N
  pub create_account : NewAccount → Text → W → W × Result Text (N × C)
  pub production_url : Text
  pub new_order : N → List Text → W → W × Result Text O
  pub authorizations : O → W → W × Result Text (List Authorization)
  pub key_authorization : O → Challenge → KeyAuthorization
  pub set_challenge_ready : O → Text → W → W × Result Text (Unit {0})
  pub refresh : O → W → W × Result Text O
  pub order_status : O → OrderStatus
  pub finalize : O → Text → W → W × Result Text O
  pub certificate : O → W → W × Result Text (Option Text)
  pub new_params : List Text → Result Text CertificateParams
  pub generate_key : W → W × Result Text KeyPair
  pub serialize_request : CertificateParams → KeyPair → Result Text Text
  pub self_signed : CertificateParams → KeyPair → W → W × Result Text Text
  pub private_key_of : Text → Result Text Text
  pub any_supported_type : Text → Result Text K
  pub pem_certs : Text → List (Result Text Text)
  -- what `read_one` gives until the end of the bytes
  pub pem_items : Text → List (Result Text PemItem)
  -- the time stamp of a certificate's `not_after`
  pub not_after : Text → Result Text ℤ
