-- ===== src/Pool/Wire.antt =====
-- What a backend gets of a request.
use spawngate.Base.{ℕ, ◌≡◌, ◌≢◌, refl, subst, sym, some, ◌++◌, unwrap_or}
use spawngate.Base.Text.{Text, codes}
use spawngate.Base.Dict.{get}
use spawngate.Base.Number.{to_text}
use spawngate.Process.State.{ProcessManager}
use spawngate.Proxy.Http.{Request}
use spawngate.Proxy.Request.{Context, handle_request, request_id_of}
use spawngate.Proxy.Forwarding.{handle_request-forwards}
use spawngate.Proxy.Headers.{get-proxy_headers}
use spawngate.Pool.{BackendRequest, backend_request}

-- A request to the port of a backend on this machine that has the method, the path and query and, under
-- the name `k`, the header of the client's.
pub record Transparent (k : Text) (port : ℕ) (req : Request) (b : BackendRequest) : Type 0 where
  pub method : b.method ≡ req.method
  pub uri :
      b.uri
      ≡ codes "http://127.0.0.1:" ++ (to_text port ++ unwrap_or req.path_and_query (codes "/"))
  pub header : get k b.headers ≡ get k req.headers

-- A request that is forwarded reaches the backend as the client sent it, at the backend's port on this
-- machine: with the same method, path and query, and the same header under each name other than the four
-- that the proxy sets.
pub backend_request-Transparent :
    (c : Context) (req sent : Request) (port : ℕ) (m : ProcessManager) (k : Text)
    → (handle_request c req m).forwarded ≡ some (port, sent)
    → k ≢ codes "x-request-id"
    → k ≢ codes "x-forwarded-for"
    → k ≢ codes "x-forwarded-host"
    → k ≢ codes "x-forwarded-proto"
    → Transparent k port req (backend_request sent port)
unfolding backend_request
backend_request-Transparent c req sent port m k e a b d g =
    let (h, config, x, has, configured, its_port, accepting, same) =
      handle_request-forwards c req sent port m e in
    subst (λ r. Transparent k port req (backend_request r port)) (sym same)
      (record {
        method = refl;
        uri = refl;
        header = get-proxy_headers c (request_id_of c req) req.headers k a b d g;
      })
