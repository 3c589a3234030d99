-- ===== src/Acme/Order.antt =====
-- src/acme.rs: how `obtain_certificate` orders a certificate.
use spawngate.Base.{
  ℕ, zero, suc, ◌+◌, Bool, true, false, Option, none, some, List, [], ◌∷◌, ◌++◌, Result, ok, err,
  ok_or, if◌then◌else◌, ltb,
}
use spawngate.Base.Text.{Text, codes, text_eq}
use spawngate.Config.{AcmeChallengeType}
use spawngate.Acme.Library.{
  ChallengeType, Challenge, AuthorizationStatus, Authorization, OrderStatus, KeyAuthorization,
  Library,
}
use spawngate.Acme.Action.{done, unfinished, Action, outcome_of, ◌>>=◌, ◌>>◌, return, fail, try}
use spawngate.Acme.Challenges.{
  CertifiedKey, State, modify, set_challenge, remove_challenge, set_challenge_cert,
  remove_challenge_cert,
}
use spawngate.Acme.Certificate.{acme_identifier}

-- `map_err` with a prefix
unfoldable pub context {ℓ} : {A : Type ℓ} → Text → Result Text A → Result Text A
context prefix (ok a) = ok a
context prefix (err e) = err (prefix ++ e)

unfoldable pub same_kind : AcmeChallengeType → ChallengeType → Bool
same_kind AcmeChallengeType.http01 ChallengeType.http01 = true
same_kind AcmeChallengeType.tls_alpn01 ChallengeType.tls_alpn01 = true
same_kind _ _ = false

unfoldable pub find_challenge : AcmeChallengeType → List Challenge → Option Challenge
unfolding same_kind
find_challenge kind [] = none
find_challenge kind (c ∷ cs) =
    let rest = find_challenge kind cs in if same_kind kind c.kind then some c else rest

-- The status of the first authorization for the domain.
unfoldable pub current_status : Text → List Authorization → Option AuthorizationStatus
current_status domain [] = none
current_status domain (a ∷ authz) =
    let rest = current_status domain authz in
    if text_eq a.identifier domain then some a.status else rest

unfoldable pub kind_name : AcmeChallengeType → Text
kind_name AcmeChallengeType.http01 = codes "Http01"
kind_name AcmeChallengeType.tls_alpn01 = codes "TlsAlpn01"

module _ {W O K N C : Type 0} (lib : Library W O K N C) where
  -- A call of a library.
  abbrev pub call : {A : Type 0} → (W → W × Result Text A) → Action (State W K) A
  call f s = (record s { world = (f s.world).0 }, outcome_of (f s.world).1)

  unfoldable pub pause : ℕ → Action (State W K) (Unit {0})
  pause seconds s = (record s { world = lib.sleep seconds s.world }, done tt)

  unfoldable pub create_tls_alpn01_cert : Text → Text → Action (State W K) (CertifiedKey K)
  unfolding acme_identifier context
  create_tls_alpn01_cert domain digest = do
    params ← try (lib.new_params (domain ∷ []))
    key_pair ← call lib.generate_key
    cert ← call (lib.self_signed (acme_identifier digest params) key_pair)
    key_der ←
        try (context (codes "Failed to serialize private key: ") (lib.private_key_of key_pair.der))
    signing_key ←
        try (context (codes "Failed to create signing key: ") (lib.any_supported_type key_der))
    return (record { cert = cert ∷ []; key = signing_key })

  unfoldable pub set_up :
      AcmeChallengeType → Text → Challenge → KeyAuthorization → Action (State W K) (Unit {0})
  unfolding create_tls_alpn01_cert set_challenge set_challenge_cert
  set_up AcmeChallengeType.http01 domain challenge key_auth =
      modify (set_challenge challenge.token key_auth.text)
  set_up AcmeChallengeType.tls_alpn01 domain challenge key_auth = do
    cert ← create_tls_alpn01_cert domain key_auth.digest
    modify (set_challenge_cert domain cert)

  unfoldable pub clean_up : AcmeChallengeType → Text → Challenge → Action (State W K) (Unit {0})
  unfolding remove_challenge remove_challenge_cert
  clean_up AcmeChallengeType.http01 domain challenge = modify (remove_challenge challenge.token)
  clean_up AcmeChallengeType.tls_alpn01 domain challenge = modify (remove_challenge_cert domain)

  -- One round of the wait for an authorization, of the status found, and what the next round does.
  unfoldable pub judge :
      (ℕ → Action (State W K) O) → ℕ → Text → O → Option AuthorizationStatus → Action (State W K) O
  judge again attempts domain order none = fail (codes "Authorization not found for " ++ domain)
  judge again attempts domain order (some AuthorizationStatus.valid) = return order
  judge again attempts domain order (some AuthorizationStatus.pending) =
      if ltb 30 (attempts + 1)
      then fail (codes "Authorization timeout for " ++ domain)
      else again (attempts + 1)
  judge again attempts domain order (some AuthorizationStatus.invalid) =
      fail (codes "Authorization failed for " ++ domain)
  judge again attempts domain order (some (AuthorizationStatus.other_status name)) = again attempts

  unfoldable pub wait_authorization : ℕ → ℕ → Text → O → Action (State W K) O
  unfolding judge current_status pause
  wait_authorization zero attempts domain order = λ s. (s, unfinished)
  wait_authorization (suc fuel) attempts domain order = do
    pause 2
    refreshed ← call (lib.refresh order)
    auths ← call (lib.authorizations refreshed)
    judge (λ n. wait_authorization fuel n domain refreshed) attempts domain refreshed
        (current_status domain auths)

  -- The rest of an authorization, when its challenge is known.
  unfoldable pub fulfil : ℕ → AcmeChallengeType → Text → O → Challenge → Action (State W K) O
  unfolding set_up clean_up wait_authorization
  fulfil fuel kind domain order challenge = do
    set_up kind domain challenge (lib.key_authorization order challenge)
    call (lib.set_challenge_ready order challenge.url)
    refreshed ← wait_authorization fuel 0 domain order
    clean_up kind domain challenge
    return refreshed

  unfoldable pub challenge_of : AcmeChallengeType → Authorization → Result Text Challenge
  unfolding find_challenge kind_name
  challenge_of kind authz = ok_or (find_challenge kind authz.challenges) (
      codes "Challenge type "
      ++ (kind_name kind ++ (codes " not available for " ++ authz.identifier)))

  unfoldable pub authorize :
      ℕ → AcmeChallengeType → O → Authorization → AuthorizationStatus → Action (State W K) O
  unfolding fulfil challenge_of
  authorize fuel kind order authz AuthorizationStatus.valid = return order
  authorize fuel kind order authz other = do
    challenge ← try (challenge_of kind authz)
    fulfil fuel kind authz.identifier order challenge

  unfoldable pub authorize_all :
      ℕ → AcmeChallengeType → List Authorization → O → Action (State W K) O
  unfolding authorize
  authorize_all fuel kind [] order = return order
  authorize_all fuel kind (authz ∷ rest) order = do
    next ← authorize fuel kind order authz authz.status
    authorize_all fuel kind rest next

  unfoldable pub next_order : (O → Action (State W K) O) → O → Action (State W K) O
  unfolding pause
  next_order again order = do pause 2; refreshed ← call (lib.refresh order); again refreshed

  unfoldable pub judge_order :
      (ℕ → O → Action (State W K) O) → ℕ → O → OrderStatus → Action (State W K) O
  unfolding next_order
  judge_order again attempts order OrderStatus.ready = return order
  judge_order again attempts order OrderStatus.pending =
      if ltb 30 (attempts + 1)
      then fail (codes "Order timeout")
      else next_order (again (attempts + 1)) order
  judge_order again attempts order OrderStatus.invalid = fail (codes "Order invalid")
  judge_order again attempts order OrderStatus.valid = return order
  judge_order again attempts order OrderStatus.processing = next_order (again attempts) order

  unfoldable pub wait_order : ℕ → ℕ → O → Action (State W K) O
  unfolding judge_order
  wait_order zero attempts order = λ s. (s, unfinished)
  wait_order (suc fuel) attempts order =
      judge_order (λ n o. wait_order fuel n o) attempts order (lib.order_status order)

  unfoldable pub judge_certificate :
      (ℕ → O → Action (State W K) Text) → ℕ → O → OrderStatus → Action (State W K) Text
  unfolding pause
  judge_certificate again attempts order OrderStatus.valid = do
    certificate ← call (lib.certificate order)
    try (ok_or certificate (codes "Order valid but no certificate returned"))
  judge_certificate again attempts order OrderStatus.processing =
      if ltb 30 (attempts + 1)
      then fail (codes "Certificate timeout")
      else pause 2 >> again (attempts + 1) order
  judge_certificate again attempts order OrderStatus.ready =
      fail (codes "Unexpected order status: Ready")
  judge_certificate again attempts order OrderStatus.pending =
      fail (codes "Unexpected order status: Pending")
  judge_certificate again attempts order OrderStatus.invalid =
      fail (codes "Unexpected order status: Invalid")

  unfoldable pub wait_certificate : ℕ → ℕ → O → Action (State W K) Text
  unfolding judge_certificate
  wait_certificate zero attempts order = λ s. (s, unfinished)
  wait_certificate (suc fuel) attempts order = do
    refreshed ← call (lib.refresh order)
    judge_certificate (λ n o. wait_certificate fuel n o) attempts refreshed
        (lib.order_status refreshed)
