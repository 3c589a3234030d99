-- ===== src/Admin/Guard.antt =====
-- What the admin API does for whom.
use spawngate.Base.{
  ◌≢◌, ◌∙◌, ap, inl, inr, Option-cases, unwrap_or, ℕ, ◌≡◌, refl, Bool, true, false, some, ◌∷◌, ◌++◌,
  arith, if◌then◌else◌, ◌⊎◌, Bool-cases, ◌||◌,
}
use spawngate.Base.Text.{
  Text, codes, text_eq, strip_prefix, strip_prefix-append, strip_prefix-some, text_eq-ne,
  text_eq_refl, starts_with,
}
use spawngate.Process.State.{BackendState, starting, unhealthy, is_state, ProcessManager, get_state}
use spawngate.Process.State as State
use spawngate.Base.Dict.{get, get-insert_self}
use spawngate.Process.Ops.{mark_ready}
use spawngate.Proxy.Http.{Request, header_str}
use spawngate.Admin.{
  AdminBody, text, version_info, backend_list, AdminResponse, response, check_auth, Endpoint,
  health, version, ready, backends, unknown, endpoint_of, answer_at, handle_admin_request,
  ready_callback, backends_reply, marked,
}

-- A body that lists no backends.
abbrev pub HidesBackends : AdminBody → Type 0
HidesBackends (text t) = Unit
HidesBackends version_info = Unit
HidesBackends (backend_list bs n) = ⊥

ready_callback-denied :
    (now : ℕ) (req : Request) (token : Text) (m : ProcessManager)
    → check_auth req token ≡ false
    → ready_callback now req token m ≡ (m, response 401 (codes "unauthorized"))
unfolding ready_callback response
ready_callback-denied now req token m denied = ground (arith, denied)

backends_reply-denied :
    (req : Request) (token : Text) (m : ProcessManager)
    → check_auth req token ≡ false
    → backends_reply req token m ≡ response 401 (codes "unauthorized")
unfolding backends_reply response
backends_reply-denied req token m denied = ground (arith, denied)

-- The manager is as it was, and the answer lists no backends.
pub record Refused (m : ProcessManager) (r : ProcessManager × AdminResponse) : Type 0 where
  pub unchanged : r.0 ≡ m
  pub hidden : HidesBackends r.1.body

answer_at-Refused :
    (e : Endpoint) (now : ℕ) (req : Request) (token : Text) (m : ProcessManager)
    → check_auth req token ≡ false
    → Refused m (answer_at e now req token m)
unfolding answer_at response
answer_at-Refused health now req token m denied = record { unchanged = refl; hidden = tt }
answer_at-Refused version now req token m denied = record { unchanged = refl; hidden = tt }
answer_at-Refused ready now req token m denied =
    rw (ready_callback-denied now req token m denied) (record { unchanged = refl; hidden = tt })
answer_at-Refused backends now req token m denied =
    rw (backends_reply-denied req token m denied) (record { unchanged = refl; hidden = tt })
answer_at-Refused unknown now req token m denied = record { unchanged = refl; hidden = tt }

-- Without the token, no request to the admin API changes the manager or lists the backends.
pub handle_admin_request-Refused :
    (now : ℕ) (req : Request) (token : Text) (m : ProcessManager)
    → check_auth req token ≡ false
    → Refused m (handle_admin_request now req token m)
unfolding handle_admin_request
handle_admin_request-Refused now req token m denied =
    answer_at-Refused (endpoint_of req) now req token m denied

-- The token is accepted behind `Bearer `, whatever it is.
pub check_auth-bearer :
    (req : Request) (token : Text)
    → header_str (codes "authorization") req ≡ some (codes "Bearer " ++ token)
    → check_auth req token ≡ true
unfolding check_auth
check_auth-bearer req token e =
    ground (arith, e, strip_prefix-append (codes "Bearer ") token, text_eq_refl token)

endpoint_of-ready :
    (req : Request) (h : Text)
    → req.method ≡ codes "POST"
    → req.path ≡ codes "/ready/" ++ h
    → endpoint_of req ≡ ready
unfolding endpoint_of text_eq starts_with
endpoint_of-ready req h post path = rw (endpoint_of, post, path) refl

marked-parts :
    (r : ProcessManager × Bool)
    → ((marked r).0 ≡ r.0) × ((marked r).1.status ≡ (if r.1 then 200 else 404))
unfolding marked response
marked-parts (m, true) = (refl, refl)
marked-parts (m, false) = (refl, refl)

ready_callback-marks :
    (now : ℕ) (req : Request) (token : Text) (c : ℕ) (h : Text) (m : ProcessManager)
    → check_auth req token ≡ true
    → req.path ≡ codes "/ready/" ++ (c ∷ h)
    → ((ready_callback now req token m).0 ≡ (mark_ready now (c ∷ h) m).0)
      × ((ready_callback now req token m).1.status
          ≡ (if (mark_ready now (c ∷ h) m).1 then 200 else 404))
unfolding ready_callback strip_prefix response
ready_callback-marks now req token c h m allowed path =
    rw (ready_callback, allowed, path) (marked-parts (mark_ready now (c ∷ h) m))

-- A backend that was `Starting` or `Unhealthy` is `Ready` now, and any other is as it was, with all
-- of the manager.
abbrev pub Reported : Text → ProcessManager → ProcessManager × ℕ → Type 0
Reported h m r =
    (((get_state m h ≡ starting) ⊎ (get_state m h ≡ unhealthy))
      × (get_state r.0 h ≡ State.ready)
      × (r.1 ≡ 200))
    ⊎ ((get_state m h ≢ starting) × (get_state m h ≢ unhealthy) × (r.0 ≡ m) × (r.1 ≡ 404))

mark_ready-Reported :
    (now : ℕ) (h : Text) (m : ProcessManager)
    → Reported h m ((mark_ready now h m).0, if (mark_ready now h m).1 then 200 else 404)
unfolding mark_ready get_state is_state
mark_ready-Reported now h m = elim (Option-cases (get h m.processes)) [
  | inl n ↦ inr (ground (arith, n), ground (arith, n), ground (arith, n), ground (arith, n))
  | inr (p, e) ↦ elim (Bool-cases (is_state p.state starting || is_state p.state unhealthy)) [
    | inl t ↦ inl (grind (arith, e, t), grind (arith, e, t, get-insert_self), ground (arith, e, t))
    | inr f ↦ inr (
      (λ s. ground (arith, e, f, s)),
      (λ s. ground (arith, e, f, s)),
      ground (arith, e, f),
      ground (arith, e, f),
    )
  ]
]

-- A `POST` with the token to the ready URL of a backend makes a backend that was `Starting` or
-- `Unhealthy` `Ready` and is answered with 200; any other backend, an unknown one too, is left as it
-- was, with all of the manager, and the answer is a 404. The manager becomes what `mark_ready` makes
-- of it.
pub handle_admin_request-marks :
    (now : ℕ) (req : Request) (token : Text) (c : ℕ) (h : Text) (m : ProcessManager)
    → req.method ≡ codes "POST"
    → req.path ≡ codes "/ready/" ++ (c ∷ h)
    → header_str (codes "authorization") req ≡ some (codes "Bearer " ++ token)
    → ((handle_admin_request now req token m).0 ≡ (mark_ready now (c ∷ h) m).0)
      × Reported (c ∷ h) m (
        (handle_admin_request now req token m).0,
        (handle_admin_request now req token m).1.status,
      )
unfolding handle_admin_request answer_at
handle_admin_request-marks now req token c h m post path auth =
    let (same, status) =
      ready_callback-marks now req token c h m (check_auth-bearer req token auth) path in
    rw (handle_admin_request, endpoint_of-ready req (c ∷ h) post path, same, status)
      (refl, mark_ready-Reported now (c ∷ h) m)

-- The header is neither the token nor `Bearer ` with the token behind it.
abbrev pub LacksToken : Text → Request → Type 0
LacksToken token req =
    (header_str (codes "authorization") req ≢ some token)
    × (header_str (codes "authorization") req ≢ some (codes "Bearer " ++ token))

shown-LacksToken :
    (auth token : Text)
    → auth ≢ token
    → auth ≢ codes "Bearer " ++ token
    → text_eq (unwrap_or (strip_prefix (codes "Bearer ") auth) auth) token ≡ false
shown-LacksToken auth token a b = elim (Option-cases (strip_prefix (codes "Bearer ") auth)) [
  | inl e ↦ rw e (text_eq-ne auth token a)
  | inr (rest, e) ↦ rw e (
      text_eq-ne rest token λ same.
        b (strip_prefix-some (codes "Bearer ") auth rest e ∙ ap (λ t. codes "Bearer " ++ t) same))
]

pub check_auth-LacksToken :
    (req : Request) (token : Text) → LacksToken token req → check_auth req token ≡ false
unfolding check_auth
check_auth-LacksToken req token (a, b) =
    elim (Option-cases (header_str (codes "authorization") req)) [
      | inl e ↦ rw (check_auth, e) refl
      | inr (auth, e) ↦
          rw (check_auth, e)
            (shown-LacksToken auth token (λ same. a (e ∙ ap some same))
              λ same. b (e ∙ ap some same))
    ]
