-- ===== src/Tests/Renewals.antt =====
-- The renewal of a certificate with a server that is over its limit.
use spawngate.Acme.Validity.{renew-deadline}
use spawngate.Acme.Action.{done}
use spawngate.Base.{◌≡◌, refl, true, some, [], ◌∷◌, err, ◌≤◌, ◌<◌, ◌+◌, ◌*◌, ◌⊎◌}
use spawngate.Base.Text.{codes}
use spawngate.Acme.Library.{Library}
use spawngate.Acme.Challenges.{State}
use spawngate.Acme.Manager.{needs_renewal, obtain_certificate, renew, after_renewal}
use spawngate.Acme.Serving.{served}
use spawngate.Acme.Renewal.{Checked, renew-Checked}
use spawngate.Tests.Certificates.{server, unserved}
use spawngate.Base.{ℕ, Bool}
use spawngate.Base.Text.{Text}

abbrev limited : Library ℕ Bool Text (Unit {0}) (Unit {0})
limited = record server { new_order = λ account domains w. (w, err (codes "rateLimited")) }

-- Ten thousand seconds before its certificate expires.
abbrev expiring : State ℕ Text
expiring = record {
  world = 9990000;
  manager = record unserved.manager {
    tls_alpn01_resolver = record {
      challenge_certs = [];
      regular_cert = some (record { cert = codes "chain" ∷ []; key = codes "der" });
    };
    current_cert = some (codes "chain" ∷ [], codes "der");
    cert_tx = some (record { cert = codes "chain" ∷ []; key = codes "der" });
  };
}

expiring_due : needs_renewal limited expiring.world expiring.manager.current_cert ≡ true
unfolding needs_renewal
expiring_due = refl

renew-Checked_example :
    Checked limited
      (served expiring)
      (obtain_certificate limited 31 tt expiring).1
      (renew limited 31 tt expiring)
renew-Checked_example = renew-Checked limited 31 tt expiring expiring_due

renew-deadline_example :
    ((9990000 + 30 * 86400 ≤ 10000000) × (renew limited 31 tt expiring ≡ (expiring, done tt)))
    ⊎ ((10000000 < 9990000 + 30 * 86400)
        × (renew limited 31 tt expiring
            ≡ after_renewal limited (obtain_certificate limited 31 tt expiring)))
renew-deadline_example =
    renew-deadline limited 31 tt expiring (codes "chain") (codes "der") [] 10000000 refl refl
