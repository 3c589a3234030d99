-- ===== src/Acme/Endless.antt =====
-- A wait for an authorization that has no end.
use spawngate.Base.{ℕ, zero, suc, ◌≡◌, refl, some, List, ok}
use spawngate.Base.Text.{Text}
use spawngate.Acme.Library.{AuthorizationStatus, Authorization, Library}
use spawngate.Acme.Action.{unfinished, ◌>>=◌}
use spawngate.Acme.Challenges.{State}
use spawngate.Acme.Order.{current_status, judge, pause, wait_authorization}

-- The server answers every request, and gives the domain's authorization a status that is neither pending
-- nor valid nor invalid, such as `deactivated`.
pub record Stuck {W O K N C : Type 0} (lib : Library W O K N C) (domain : Text) (name : Text)
    : Type 0 where
  pub order : O → W → O
  pub authz : O → W → List Authorization
  pub refreshes : (o : O) (w : W) → (lib.refresh o w).1 ≡ ok (order o w)
  pub answers : (o : O) (w : W) → (lib.authorizations o w).1 ≡ ok (authz o w)
  pub status :
      (o : O) (w : W)
      → current_status domain (authz o w) ≡ some (AuthorizationStatus.other_status name)

module _ {W O K N C : Type 0} (lib : Library W O K N C) where
  -- With a server that gives the domain's authorization a status that is neither pending nor valid nor
  -- invalid, the wait for the authorization goes on after any number of rounds, whatever the count of its
  -- attempts is.
  pub wait_authorization-unfinished :
      (fuel attempts : ℕ) (domain name : Text) (order : O) (s : State W K)
      → Stuck lib domain name
      → (wait_authorization lib fuel attempts domain order s).1 ≡ unfinished
  unfolding wait_authorization judge pause ◌>>=◌
  wait_authorization-unfinished zero n domain name order s t = refl
  wait_authorization-unfinished (suc fuel) n domain name order s t =
      rw (wait_authorization, t.refreshes order (lib.sleep 2 s.world), t.answers, t.status)
        (wait_authorization-unfinished fuel n domain name _ _ t)
