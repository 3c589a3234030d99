-- ===== src/Acme/Manager.antt =====
-- src/acme.rs: the account, the cache, and the manager that obtains and renews the certificate.
use spawngate.Base.{
  ℕ, ◌*◌, Bool, true, false, not, Option, none, some, List, [], ◌∷◌, ◌++◌, Result, ok, err, ok_or,
  if◌then◌else◌, ◌||◌, unwrap_or,
}
use spawngate.Base.Text.{Text, codes}
use spawngate.Config.{AcmeConfig}
use spawngate.Acme.Library.{Library}
use spawngate.Acme.Action.{
  Outcome, done, failed, panicked, unfinished, Action, ◌>>=◌, ◌>>◌, return, try,
}
use spawngate.Acme.Challenges.{CertifiedKey, AcmeManager, State, modify, set_regular_cert}
use spawngate.Acme.Certificate.{
  Paths, validate_cache_dir, is_cert_valid_for_days, load_private_key, readable,
}
use spawngate.Acme.Order.{call, pause, context, authorize_all, wait_order, wait_certificate}

-- `AcmeManager::new`
unfoldable pub new_manager : {K : Type 0} → Paths → AcmeConfig → Result Text (AcmeManager K)
unfolding validate_cache_dir
new_manager fs config = elim (validate_cache_dir fs config.cache_dir) [
  | err e ↦ err e
  | ok cache_dir ↦ ok (record {
    config = config;
    cache_dir = cache_dir;
    http01_challenges = [];
    tls_alpn01_resolver = record { challenge_certs = []; regular_cert = none };
    current_cert = none;
    cert_tx = none;
  })
]

-- The certificates and the key, and both as they are saved.
pub record Obtained : Type 0 where
  pub certs : List Text
  pub key : Text
  pub cert_pem : Text
  pub key_pem : Text

-- What ends the wait for the next check of the certificate: time, or a change of the shutdown flag.
pub data Wake : Type 0 where
  interval : Wake
  shutdown_changed : Bool → Wake

abbrev pub renewal_interval : ℕ
renewal_interval = 12 * 60 * 60

module _ {W O K N C : Type 0} (lib : Library W O K N C) where
  unfoldable pub first_domain : List Text → Action (State W K) Text
  first_domain [] = λ s. (s, panicked)
  first_domain (d ∷ ds) = return d

  -- `obtain_certificate` from the signing request on.
  unfoldable pub finalize_order : ℕ → List Text → O → Action (State W K) Obtained
  unfolding first_domain wait_certificate context readable
  finalize_order fuel domains order = do
    params ← try (lib.new_params domains)
    common_name ← first_domain domains
    private_key ← call lib lib.generate_key
    csr ←
        try (lib.serialize_request (record params { common_names = common_name ∷ [] }) private_key)
    finalized ← call lib (lib.finalize order csr)
    cert_chain_pem ← wait_certificate lib fuel 0 finalized
    key ← try (context (codes "Failed to parse private key: ") (lib.private_key_of private_key.der))
    return (record {
      certs = readable (lib.pem_certs cert_chain_pem);
      key = key;
      cert_pem = cert_chain_pem;
      key_pem = private_key.pem;
    })

  unfoldable pub order_for : ℕ → AcmeConfig → N → Action (State W K) Obtained
  unfolding authorize_all wait_order finalize_order
  order_for fuel config account = do
    order ← call lib (lib.new_order account config.domains)
    authorizations ← call lib (lib.authorizations order)
    authorized ← authorize_all lib fuel config.challenge_type authorizations order
    ready ← wait_order lib fuel 0 authorized
    finalize_order fuel config.domains ready

  -- Each loop has `fuel` rounds at most.
  unfoldable pub obtain_certificate : ℕ → N → Action (State W K) Obtained
  unfolding order_for
  obtain_certificate fuel account s = order_for fuel s.manager.config account s

  unfoldable pub load_account : Text → Action (State W K) N
  load_account path s =
      (do
        text ← try (lib.read path s.world)
        credentials ← try (lib.credentials_of text)
        call lib (lib.from_credentials credentials))
        s

  unfoldable pub create_account : Text → AcmeConfig → Text → Action (State W K) N
  create_account path config cache_dir = do
    email ← try (ok_or config.email (codes "ACME email is required for account creation"))
    (account, credentials) ← call lib (
        lib.create_account
          (record {
            contact = (codes "mailto:" ++ email) ∷ [];
            terms_of_service_agreed = true;
            only_return_existing = false;
          })
          (unwrap_or config.directory_url lib.production_url))
    call lib (lib.create_dir_all cache_dir)
    text ← try (lib.credentials_text credentials)
    call lib (lib.write none path text)
    return account

  unfoldable pub get_or_create_account : Action (State W K) N
  unfolding load_account create_account
  get_or_create_account s =
      let path = lib.join s.manager.cache_dir (codes "account.json") in
      if lib.exists path s.world
      then load_account path s
      else create_account path s.manager.config s.manager.cache_dir s

  -- The cached certificates with their key, unless the first is to be renewed.
  still_valid : W → List Text → Option Text → Option (List Text × Text)
  unfolding is_cert_valid_for_days
  still_valid w [] key = none
  still_valid w (c ∷ cs) none = none
  still_valid w (c ∷ cs) (some key) =
      if is_cert_valid_for_days lib c 30 w then some (c ∷ cs, key) else none

  parse_cached : W → Result Text Text → Result Text Text → Option (List Text × Text)
  unfolding still_valid readable load_private_key
  parse_cached w (ok certs) (ok key) =
      still_valid w (readable (lib.pem_certs certs)) (load_private_key (lib.pem_items key))
  parse_cached w _ _ = none

  unfoldable pub load_cached_cert : State W K → Option (List Text × Text)
  unfolding parse_cached
  load_cached_cert s =
      let cert_path = lib.join s.manager.cache_dir (codes "cert.pem") in
      let key_path = lib.join s.manager.cache_dir (codes "key.pem") in
      if not (lib.exists cert_path s.world) || not (lib.exists key_path s.world)
      then none
      else parse_cached s.world (lib.read cert_path s.world) (lib.read key_path s.world)

  unfoldable pub save_cert : Text → Text → Action (State W K) (Unit {0})
  save_cert cert_pem key_pem s =
      let dir = s.manager.cache_dir in
      (do
        call lib (lib.create_dir_all dir)
        call lib (lib.write none (lib.join dir (codes "cert.pem")) cert_pem)
        call lib (lib.write (some (6 * 8 * 8)) (lib.join dir (codes "key.pem")) key_pem))
        s

  -- The manager with a certificate that it serves from now on.
  unfoldable pub publish : List Text → Text → CertifiedKey K → AcmeManager K → AcmeManager K
  unfolding set_regular_cert
  publish certs key certified m = record (set_regular_cert certified m) {
    current_cert = some (certs, key);
    cert_tx = some certified;
  }

  unfoldable pub update_cert : List Text → Text → Action (State W K) (Unit {0})
  unfolding publish context
  update_cert certs key = do
    signing_key ←
        try (context (codes "Failed to create signing key: ") (lib.any_supported_type key))
    modify (publish certs key (record { cert = certs; key = signing_key }))

  unfoldable pub get_current_cert : State W K → Option (List Text × Text)
  get_current_cert s = s.manager.current_cert

  unfoldable pub install : Obtained → Action (State W K) (Unit {0})
  unfolding save_cert update_cert
  install new = do save_cert new.cert_pem new.key_pem; update_cert new.certs new.key

  unfoldable pub use_cached : Option (List Text × Text) → Action (State W K) (Unit {0})
  unfolding update_cert
  use_cached none = return tt
  use_cached (some (certs, key)) = update_cert certs key

  unfoldable pub obtain_first : ℕ → N → Option (List Text × Text) → Action (State W K) (Unit {0})
  unfolding obtain_certificate install
  obtain_first fuel account (some c) = return tt
  obtain_first fuel account none = do new ← obtain_certificate fuel account; install new

  unfoldable pub needs_renewal : W → Option (List Text × Text) → Bool
  unfolding is_cert_valid_for_days
  needs_renewal w none = true
  needs_renewal w (some ([], key)) = true
  needs_renewal w (some (c ∷ cs, key)) = not (is_cert_valid_for_days lib c 30 w)

  -- What the loop does with the outcome of `obtain_certificate`: an error is only logged.
  unfoldable pub after_renewal : State W K × Outcome Obtained → State W K × Outcome (Unit {0})
  unfolding install
  after_renewal (s, done new) = install new s
  after_renewal (s, failed e) = (s, done tt)
  after_renewal (s, panicked) = (s, panicked)
  after_renewal (s, unfinished) = (s, unfinished)

  unfoldable pub renew : ℕ → N → Action (State W K) (Unit {0})
  unfolding needs_renewal obtain_certificate after_renewal
  renew fuel account s =
      if needs_renewal s.world s.manager.current_cert
      then after_renewal (obtain_certificate fuel account s)
      else (s, done tt)

  -- The renewal loop over what ends its waits. It is unfinished at the end of the list.
  unfoldable pub renewal_loop : ℕ → N → List Wake → Action (State W K) (Unit {0})
  unfolding renew pause
  renewal_loop fuel account [] = λ s. (s, unfinished)
  renewal_loop fuel account (shutdown_changed true ∷ wakes) = return tt
  renewal_loop fuel account (shutdown_changed false ∷ wakes) = renewal_loop fuel account wakes
  renewal_loop fuel account (interval ∷ wakes) = do
    pause lib renewal_interval
    renew fuel account
    renewal_loop fuel account wakes

  -- `AcmeManager::run`
  unfoldable pub run : ℕ → List Wake → Action (State W K) (Unit {0})
  unfolding use_cached obtain_first get_or_create_account load_cached_cert renewal_loop
  run fuel wakes s =
      (do
        use_cached (load_cached_cert s)
        account ← get_or_create_account
        λ s'. obtain_first fuel account s'.manager.current_cert s'
        renewal_loop fuel account wakes)
        s
