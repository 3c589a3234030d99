-- ===== src/Proxy/Refusals.antt =====
-- Requests that `handle_request` answers by itself.
use spawngate.Base.{ℕ, ◌≡◌, refl, false, none, some, ◌⊎◌, inl, inr, Option-cases}
use spawngate.Base.Text.{Text}
use spawngate.Process.State.{ProcessManager, has_backend}
use spawngate.Error.{Response}
use spawngate.Proxy.Http.{Request}
use spawngate.Proxy.Hostname.{extract_hostname, build_https_redirect}
use spawngate.Proxy.Upgrade.{refused}
use spawngate.Proxy.Request.{
  Context, Handled, reply_with, challenge_response, redirect_port, identify, route, handle_request,
}

-- No backend got the request, and nothing happened to the manager.
pub record Untouched (m : ProcessManager) (r : Handled) : Type 0 where
  pub same : r.manager ≡ m
  pub unsent : r.forwarded ≡ none
  pub no_raw : r.raw ≡ none
  pub no_tunnel : r.tunnel ≡ refused

abbrev untouched : {m : ProcessManager} {r : Response} → Untouched m (reply_with m r)
untouched = record { same = refl; unsent = refl; no_raw = refl; no_tunnel = refl }

route-Untouched :
    (c : Context) (h : Text) (req : Request) (m : ProcessManager)
    → has_backend m h ≡ false
    → Untouched m (route c h req m)
unfolding route
route-Untouched c h req m e = rw (route, e) untouched

-- The host of the request names no configured backend.
abbrev pub IsUnknown : Request → ProcessManager → Type 0
IsUnknown req m =
    (extract_hostname req ≡ none)
    ⊎ ((h : Text) × (extract_hostname req ≡ some h) × (has_backend m h ≡ false))

identify-Untouched :
    (c : Context) (req : Request) (m : ProcessManager)
    → IsUnknown req m
    → Untouched m (identify c req m)
unfolding identify
identify-Untouched c req m (inl e) = rw (identify, e) untouched
identify-Untouched c req m (inr (h, e, unknown)) =
    rw (identify, e) (route-Untouched c h _ m unknown)

module _ (c : Context) (req : Request) (m : ProcessManager) where
  -- A request without a valid host, or for a host that no backend is configured for, starts nothing,
  -- reaches no backend, and changes nothing in the manager.
  pub handle_request-unknown : IsUnknown req m → Untouched m (handle_request c req m)
  unfolding handle_request
  handle_request-unknown unknown = elim (Option-cases (challenge_response c req)) [
    | inr (r, e) ↦ rw (handle_request, e) untouched
    | inl e ↦ elim (Option-cases (redirect_port c)) [
      | inr (p, f) ↦ rw (handle_request, e, f) untouched
      | inl f ↦ rw (handle_request, e, f) (identify-Untouched c req m unknown)
    ]
  ]

  -- Where the server redirects to HTTPS, a request on a plain connection reaches no backend and changes
  -- nothing: it is an ACME challenge that the proxy answers, or it gets the redirect.
  pub handle_request-redirects :
      {port : ℕ}
      → c.is_tls ≡ false
      → c.https_redirect_port ≡ some port
      → Untouched m (handle_request c req m)
        × (((handle_request c req m).response ≡ challenge_response c req)
            ⊎ ((handle_request c req m).response ≡ some (build_https_redirect req port)))
  unfolding handle_request redirect_port
  handle_request-redirects plain redirects = elim (Option-cases (challenge_response c req)) [
    | inr (r, e) ↦ rw (handle_request, e) (untouched, inl refl)
    | inl e ↦ rw (handle_request, e, redirect_port, plain, redirects) (untouched, inr refl)
  ]
