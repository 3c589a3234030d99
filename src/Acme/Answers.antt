-- ===== src/Acme/Answers.antt =====
-- What clients are answered while a challenge is pending.
use spawngate.Base.{ℕ, ◌≡◌, refl, ap, ◌∙◌, true, some, List, [], ◌∷◌, ◌++◌, arith}
use spawngate.Base.Text.{Text, codes, includes}
use spawngate.Base.Dict.{Dict, get, insert, get-insert_self}
use spawngate.Error.{plain}
use spawngate.Config.{AcmeChallengeType}
use spawngate.Proxy.Http.{Request}
use spawngate.Proxy.Request.{
  Context, acme_challenge_prefix, challenge_response, handle_request, reply_with,
}
use spawngate.Process.State.{ProcessManager}
use spawngate.Acme.Library.{Challenge, KeyAuthorization, Library}
use spawngate.Acme.Action.{Outcome, done, failed, panicked, unfinished, Action, after, ◌>>=◌}
use spawngate.Acme.Challenges.{
  State, AcmeManager, CertifiedKey, ClientHello, set_challenge, set_challenge_cert, resolve,
  regular_unless, is_acme_challenge, acme_tls_alpn_name,
}
use spawngate.Acme.Order.{create_tls_alpn01_cert, set_up, wait_authorization}
use spawngate.Acme.Kept.{create_tls_alpn01_cert-KeepsManager, wait_authorization-KeepsManager}

after-done :
    {S A B : Type 0} (f : A → Action S B) (p : S × Outcome A) (a : A)
    → p.1 ≡ done a
    → after f p ≡ f a p.0
after-done f (s, done x) a e = ground (arith, e)
after-done f (s, failed x) a e = absurd (ground (arith, e))
after-done f (s, panicked) a e = absurd (ground (arith, e))
after-done f (s, unfinished) a e = absurd (ground (arith, e))

offered :
    (hello : ClientHello) (names : List Text)
    → hello.alpn ≡ some names
    → includes names acme_tls_alpn_name ≡ true
    → is_acme_challenge hello ≡ true
unfolding is_acme_challenge
offered hello names e o = rw (is_acme_challenge, e) o

challenge_response-some :
    (ctx : Context) (req : Request) (challenges : Dict Text) (token key_auth : Text)
    → ctx.acme_challenges ≡ some challenges
    → req.path ≡ acme_challenge_prefix ++ token
    → get token challenges ≡ some key_auth
    → challenge_response ctx req
      ≡ some (record {
        status = 200;
        headers = (codes "content-type", codes "text/plain") ∷ [];
        body = plain key_auth;
      })
unfolding challenge_response
challenge_response-some ctx req challenges token key_auth e p g =
    rw (challenge_response, e, p, g) refl

module _ {W O K N C : Type 0} (lib : Library W O K N C) (domain : Text) (c : Challenge)
    (ka : KeyAuthorization) where
  -- The manager after some rounds of the wait for an authorization.
  abbrev pub waiting : ℕ → AcmeChallengeType → O → State W K → AcmeManager K
  waiting rounds kind order s =
      (wait_authorization lib rounds 0 domain order (set_up lib kind domain c ka s).0).0.manager

  waiting_challenges :
      (rounds : ℕ) (order : O) (s : State W K)
      → (waiting rounds AcmeChallengeType.http01 order s).http01_challenges
        ≡ insert c.token ka.text s.manager.http01_challenges
  unfolding set_up set_challenge
  waiting_challenges rounds order s =
      ap (λ (x : AcmeManager K). x.http01_challenges)
        (wait_authorization-KeepsManager lib rounds 0 domain order _)

  -- From the time that an HTTP-01 challenge is set up, and in every round of the wait for its
  -- authorization, a proxy that has the manager's challenges answers a request for the token's path with
  -- the key authorization, whatever the host is and also where HTTP is redirected, and starts no backend.
  pub waiting-answered :
      (rounds : ℕ) (order : O) (s : State W K) (ctx : Context) (req : Request) (m : ProcessManager)
      → ctx.acme_challenges
        ≡ some (waiting rounds AcmeChallengeType.http01 order s).http01_challenges
      → req.path ≡ acme_challenge_prefix ++ c.token
      → handle_request ctx req m
        ≡ reply_with m (record {
          status = 200;
          headers = (codes "content-type", codes "text/plain") ∷ [];
          body = plain ka.text;
        })
  unfolding handle_request
  waiting-answered rounds order s ctx req m e p =
      rw
        (
          handle_request,
          challenge_response-some ctx req _ c.token ka.text e p (
              rw (waiting_challenges rounds order s)
                (get-insert_self c.token ka.text s.manager.http01_challenges)),
        )
        refl

  waiting_cert :
      (rounds : ℕ) (order : O) (s : State W K) (cert : CertifiedKey K)
      → (create_tls_alpn01_cert lib domain ka.digest s).1 ≡ done cert
      → (waiting rounds AcmeChallengeType.tls_alpn01 order s).tls_alpn01_resolver
        ≡ record s.manager.tls_alpn01_resolver {
          challenge_certs = insert domain cert s.manager.tls_alpn01_resolver.challenge_certs;
        }
  unfolding set_up set_challenge_cert ◌>>=◌
  waiting_cert rounds order s cert made =
      ap (λ (x : AcmeManager K). x.tls_alpn01_resolver)
        (wait_authorization-KeepsManager lib rounds 0 domain order _
          ∙ (ap (λ x. x.0.manager)
                (after-done
                  (λ k t. (record t { manager = set_challenge_cert domain k t.manager }, done tt))
                  (create_tls_alpn01_cert lib domain ka.digest s) cert made)
              ∙ ap (set_challenge_cert domain cert)
                  (create_tls_alpn01_cert-KeepsManager lib domain ka.digest s)))

  -- Likewise for TLS-ALPN-01: a client that offers `acme-tls/1` for the domain gets the challenge
  -- certificate, in every round of the wait.
  pub waiting-resolved :
      (rounds : ℕ) (order : O) (s : State W K) (hello : ClientHello) (names : List Text)
      (cert : CertifiedKey K)
      → (create_tls_alpn01_cert lib domain ka.digest s).1 ≡ done cert
      → hello.alpn ≡ some names
      → includes names acme_tls_alpn_name ≡ true
      → hello.server_name ≡ some domain
      → resolve (waiting rounds AcmeChallengeType.tls_alpn01 order s).tls_alpn01_resolver hello
        ≡ some cert
  unfolding resolve regular_unless
  waiting-resolved rounds order s hello names cert made e o n =
      rw (waiting_cert rounds order s cert made) (
        rw (offered hello names e o, n)
          (get-insert_self domain cert s.manager.tls_alpn01_resolver.challenge_certs))
