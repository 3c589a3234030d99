-- ===== src/Tests/Certificates.antt =====
-- An ACME server in memory, whose authorizations are valid from a time on.
use spawngate.Base.{
  ℕ, ◌+◌, ◌++◌, ◌≡◌, refl, subst, arith, Bool, true, false, some, none, List, [], ◌∷◌, Result, ok,
  err, if◌then◌else◌, ltb, Bool-cases, inl, inr,
}
use spawngate.Base.Text.{Text, codes, text_eq}
use spawngate.Base.Dict.{get}
use spawngate.Base.Lists.{All}
use spawngate.Base.Integer.{pos}
use spawngate.Config.{standard_acme}
use spawngate.Proxy.Http.{Request}
use spawngate.Proxy.Request.{acme_challenge_prefix}
use spawngate.Acme.Library.{
  ChallengeType, Challenge, AuthorizationStatus, Authorization, OrderStatus, KeyAuthorization,
  CertificateParams, Library,
}
use spawngate.Acme.Action.{done, unfinished, ◌>>=◌}
use spawngate.Acme.Challenges.{State, get_challenge}
use spawngate.Acme.Manager.{Obtained, interval, shutdown_changed, obtain_certificate, run}
use spawngate.Acme.Agreement.{Agrees, run-Agrees}
use spawngate.Acme.Halting.{Verdict, Anything, IsCounted, Settles}
use spawngate.Acme.Termination.{obtain_certificate-Halts}
use spawngate.Acme.Cleanup.{Cleared, obtain_certificate-Cleared}
use spawngate.Acme.Order.{current_status, wait_authorization}
use spawngate.Acme.Endless.{Stuck, wait_authorization-unfinished}

abbrev pub domain : Text
domain = codes "example.com"

abbrev pub challenge : Challenge
challenge = record { kind = ChallengeType.http01; url = codes "/c/1"; token = codes "t1" }

abbrev pub key_auth : KeyAuthorization
key_auth = record { text = codes "t1.thumb"; digest = [] }

-- The status, of the time in seconds.
abbrev pub status_at : ℕ → AuthorizationStatus
status_at w = if ltb w 103 then AuthorizationStatus.pending else AuthorizationStatus.valid

abbrev pub params_for : List Text → CertificateParams
params_for names = record {
  names = names;
  common_names = [];
  is_ca = false;
  digital_signature_only = false;
  custom_extensions = [];
}

-- An order is whether it was finalized.
abbrev pub server : Library ℕ Bool Text (Unit {0}) (Unit {0})
server = record {
  now = λ w. w;
  sleep = λ n w. w + n;
  join = λ dir name. dir ++ (codes "/" ++ name);
  exists = λ path w. false;
  read = λ path w. err (codes "no such file");
  write = λ mode path text w. (w, ok tt);
  create_dir_all = λ path w. (w, ok tt);
  credentials_of = λ text. ok tt;
  credentials_text = λ c. ok (codes "{}");
  from_credentials = λ c w. (w, ok tt);
  create_account = λ new url w. (w, ok (tt, tt));
  production_url = codes "https://acme.example";
  new_order = λ account domains w. (w, ok false);
  authorizations = λ order w. (
    w,
    ok (record { identifier = domain; status = status_at w; challenges = challenge ∷ [] } ∷ []),
  );
  key_authorization = λ order c. key_auth;
  set_challenge_ready = λ order url w. (w, ok tt);
  refresh = λ order w. (w, ok order);
  order_status = λ order. if order then OrderStatus.valid else OrderStatus.ready;
  finalize = λ order csr w. (w, ok true);
  certificate = λ order w. (w, ok (some (codes "chain")));
  new_params = λ names. ok (params_for names);
  generate_key = λ w. (w, ok (record { der = codes "der"; pem = codes "pem" }));
  serialize_request = λ params key. ok (codes "csr");
  self_signed = λ params key w. (w, ok (codes "cert"));
  private_key_of = λ der. ok der;
  any_supported_type = λ key. ok key;
  pem_certs = λ text. ok text ∷ [];
  pem_items = λ text. [];
  not_after = λ cert. ok (pos 10000000);
}

abbrev pub unserved : State ℕ Text
unserved = record {
  world = 100;
  manager = record {
    config = record standard_acme { domains = domain ∷ []; email = some (codes "a@example.com") };
    cache_dir = codes "/var/acme";
    http01_challenges = [];
    tls_alpn01_resolver = record { challenge_certs = []; regular_cert = none };
    current_cert = none;
    cert_tx = none;
  };
}

unserved-Agrees : Agrees server unserved
unserved-Agrees = record { sent = refl; stored = tt }

run-Agrees_example :
    Agrees server (run server 31 (interval ∷ shutdown_changed true ∷ []) unserved).0
run-Agrees_example =
    run-Agrees server 31 (interval ∷ shutdown_changed true ∷ []) unserved unserved-Agrees

status_at-IsCounted : (w : ℕ) → IsCounted (status_at w)
status_at-IsCounted w = elim (Bool-cases (ltb w 103)) [ inl e ↦ rw e tt | inr e ↦ rw e tt ]

abbrev IsOpen : Bool → Type 0
IsOpen order = order ≡ false

server-Settles : Settles server IsOpen
server-Settles = record {
  counted = λ o w authz e.
      subst
        (λ (r : Result Text (List Authorization)). elim r [
          | ok a ↦ All (λ x. IsCounted x.status) a
          | err x ↦ Unit
        ])
        e (status_at-IsCounted w, tt);
  placed = λ n domains w o e. ground (arith, e);
  refreshed = λ o o' w p e. ground (arith, e, p);
  not_processing = λ o p e. ground (arith, p, e);
}

obtain_certificate-Halts_example : Verdict Anything (obtain_certificate server 31 tt unserved).1
obtain_certificate-Halts_example =
    obtain_certificate-Halts server IsOpen server-Settles 31 tt unserved (omega arith) refl

abbrev obtained : Obtained
obtained = record {
  certs = codes "chain" ∷ [];
  key = codes "der";
  cert_pem = codes "chain";
  key_pem = codes "pem";
}

obtain-obtained : (obtain_certificate server 31 tt unserved).1 ≡ done obtained
unfolding obtain_certificate ◌>>=◌ text_eq
obtain-obtained = refl

unserved-Cleared : Cleared server (codes "t1") domain unserved.manager
unfolding get_challenge get
unserved-Cleared = (refl, refl)

obtain_certificate-Cleared_example :
    Cleared server (codes "t1") domain (obtain_certificate server 31 tt unserved).0.manager
obtain_certificate-Cleared_example =
    obtain_certificate-Cleared server (codes "t1") domain 31 tt unserved obtained unserved-Cleared
      obtain-obtained

abbrev pub validation : Request
validation = record {
  method = codes "GET";
  path = acme_challenge_prefix ++ codes "t1";
  path_and_query = some (acme_challenge_prefix ++ codes "t1");
  headers = [];
}

-- The same server, where an account deactivated the authorization.
abbrev deactivated : AuthorizationStatus
deactivated = AuthorizationStatus.other_status (codes "deactivated")

abbrev deactivating : Library ℕ Bool Text (Unit {0}) (Unit {0})
deactivating = record server {
  authorizations = λ order w. (
    w,
    ok (record { identifier = domain; status = deactivated; challenges = challenge ∷ [] } ∷ []),
  );
}

deactivating-Stuck : Stuck deactivating domain (codes "deactivated")
unfolding current_status text_eq
deactivating-Stuck = record {
  order = λ o w. o;
  authz =
      λ o w. record { identifier = domain; status = deactivated; challenges = challenge ∷ [] } ∷ [];
  refreshes = λ o w. refl;
  answers = λ o w. refl;
  status = λ o w. refl;
}

wait_authorization-unfinished_example :
    (wait_authorization deactivating 1000 0 domain false unserved).1 ≡ unfinished
wait_authorization-unfinished_example =
    wait_authorization-unfinished deactivating 1000 0 domain (codes "deactivated") false unserved
      deactivating-Stuck
