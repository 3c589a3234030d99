-- ===== src/Pool.antt =====
-- src/pool.rs: the requests to backends and their counts. The HTTP client is a parameter.
pub mod Wire
use spawngate.Base.{
  ℕ, ◌+◌, ◌%◌, Bool, true, false, ◌&&◌, [], ◌∷◌, ◌++◌, Result, ok, err, leb, ltb, unwrap_or,
}
use spawngate.Base.Text.{Text, codes}
use spawngate.Base.Dict.{Dict}
use spawngate.Base.Number.{to_text}
use spawngate.Config.{Duration}
use spawngate.Error.{Response}
use spawngate.Proxy.Http.{HeaderValue, Request}

pub data PoolError : Type 0 where
  client : Text → PoolError
  request_build : Text → PoolError

-- `Display`
unfoldable pub display : PoolError → Text
display (client e) = codes "Client error: " ++ e
display (request_build s) = codes "Request build error: " ++ s

pub record PoolStats : Type 0 where
  pub total_requests : ℕ
  pub health_checks : ℕ

-- `fetch_add` on 64 bits
abbrev pub wrapped : ℕ → ℕ
wrapped n = n % 18446744073709551616

unfoldable pub record_request : PoolStats → PoolStats
record_request s = record s { total_requests = wrapped (s.total_requests + 1) }

unfoldable pub record_health_check : PoolStats → PoolStats
record_health_check s = record s { health_checks = wrapped (s.health_checks + 1) }

-- The timeout in milliseconds.
pub record PoolConfig : Type 0 where
  pub max_idle_per_host : ℕ
  pub idle_timeout : Duration

-- `PoolConfig::default`
abbrev pub standard_pool : PoolConfig
standard_pool = record { max_idle_per_host = 10; idle_timeout = 90000 }

-- How a client is built. Its connector accepts `http` only, and sets `TCP_NODELAY`.
pub record ClientSettings : Type 0 where
  pub nodelay : Bool
  pub enforce_http : Bool
  pub pool_max_idle_per_host : ℕ
  pub pool_idle_timeout : Duration

pub record ConnectionPool : Type 0 where
  pub client : ClientSettings
  pub health_client : ClientSettings
  pub stats : PoolStats
  pub config : PoolConfig

-- `ConnectionPool::new`
unfoldable pub new_pool : PoolConfig → ConnectionPool
new_pool config =
    let settings : ClientSettings = record {
      nodelay = true;
      enforce_http = true;
      pool_max_idle_per_host = config.max_idle_per_host;
      pool_idle_timeout = config.idle_timeout;
    } in
    record {
      client = settings;
      health_client = settings;
      stats = record { total_requests = 0; health_checks = 0 };
      config = config;
    }

-- A request as it is built for the client.
pub record BackendRequest : Type 0 where
  pub method : Text
  pub uri : Text
  pub headers : Dict HeaderValue

pub record HttpClient : Type 0 where
  pub build : BackendRequest → Result Text BackendRequest
  pub request : BackendRequest → Result Text Response
  pub keep_alive : HeaderValue

unfoldable pub backend_request : Request → ℕ → BackendRequest
unfolding to_text
backend_request req port = record {
  method = req.method;
  uri = codes "http://127.0.0.1:" ++ (to_text port ++ unwrap_or req.path_and_query (codes "/"));
  headers = req.headers;
}

module _ (http : HttpClient) where
  sent : Result Text Response → Result PoolError Response
  sent (ok r) = ok r
  sent (err e) = err (client e)

  unfoldable pub send_request : Request → ℕ → PoolStats → PoolStats × Result PoolError Response
  unfolding backend_request record_request sent
  send_request req port s = elim (http.build (backend_request req port)) [
    | err e ↦ (s, err (request_build e))
    | ok r ↦ (record_request s, sent (http.request r))
  ]

  -- `is_success`
  succeeded : Result Text Response → Bool
  succeeded (ok r) = leb 200 r.status && ltb r.status 300
  succeeded (err e) = false

  unfoldable pub check_backend : ℕ → Text → PoolStats → PoolStats × Bool
  unfolding record_health_check succeeded
  check_backend port path s =
      elim (http.build (record {
        method = codes "GET";
        uri = codes "http://127.0.0.1:" ++ (to_text port ++ path);
        headers = (codes "connection", http.keep_alive) ∷ [];
      })) [ err e ↦ (s, false) | ok r ↦ (record_health_check s, succeeded (http.request r)) ]
