-- ===== src/Proxy/Headers.antt =====
-- The headers that `handle_request` sets.
use spawngate.Base.{◌≡◌, ◌∙◌, ◌≢◌, refl, sym, false, Option, none, some, arith, ◌⊎◌}
use spawngate.Base.Text.{Text, codes, text_eq, text_eq-ne}
use spawngate.Base.Dict.{Dict, get, get-insert_self, get-insert_ne}
use spawngate.Proxy.Http.{HeaderValue}
use spawngate.Proxy.Request.{Context, proto, proxy_headers, set_if}

get-set_if_self :
    (name : Text) (v : HeaderValue) (headers : Dict HeaderValue)
    → get name (set_if name (some v) headers) ≡ some v
unfolding set_if
get-set_if_self name v headers = get-insert_self name v headers

get-set_if_ne :
    (name k : Text) (v : Option HeaderValue) (headers : Dict HeaderValue)
    → text_eq name k ≡ false
    → get k (set_if name v headers) ≡ get k headers
unfolding set_if
get-set_if_ne name k none headers ne = refl
get-set_if_ne name k (some v) headers ne = get-insert_ne name k v headers ne

differs : {name : Text} (k : Text) → k ≢ name → text_eq name k ≡ false
differs {name} k ne = text_eq-ne name k (λ e. ne (sym e))

proto-cases : (c : Context) → (proto c ≡ codes "http") ⊎ (proto c ≡ codes "https")
proto-cases c = ground arith

module _ (c : Context) (id : Text) (headers : Dict HeaderValue) where
  -- A header that the first two steps do not set.
  get-early :
      (k : Text)
      → text_eq (codes "x-request-id") k ≡ false
      → text_eq (codes "x-forwarded-for") k ≡ false
      → get k (
          set_if
            (codes "x-forwarded-for")
            (c.http.from_str c.client_ip)
            (set_if (codes "x-request-id") (c.http.from_str id) headers))
        ≡ get k headers
  get-early k a b = get-set_if_ne _ k _ _ b ∙ get-set_if_ne _ k _ _ a

  get-proxy_headers_ne :
      (k : Text)
      → text_eq (codes "x-request-id") k ≡ false
      → text_eq (codes "x-forwarded-for") k ≡ false
      → text_eq (codes "x-forwarded-host") k ≡ false
      → text_eq (codes "x-forwarded-proto") k ≡ false
      → get k (proxy_headers c id headers) ≡ get k headers
  unfolding proxy_headers
  get-proxy_headers_ne k a b d g =
      get-insert_ne _ k _ _ g ∙ get-set_if_ne _ k _ _ d ∙ get-early k a b

  get-forwarded_for :
      (ip : HeaderValue)
      → c.http.from_str c.client_ip ≡ some ip
      → get (codes "x-forwarded-for") (proxy_headers c id headers) ≡ some ip
  unfolding proxy_headers text_eq
  get-forwarded_for ip e =
      get-insert_ne _ _ _ _ refl ∙ get-set_if_ne _ _ _ _ refl ∙ rw e (get-set_if_self _ ip _)

  get-forwarded_host :
      (host : HeaderValue)
      → get (codes "host") headers ≡ some host
      → get (codes "x-forwarded-host") (proxy_headers c id headers) ≡ some host
  unfolding proxy_headers text_eq
  get-forwarded_host host f =
      get-insert_ne _ _ _ _ refl
      ∙ rw (get-early (codes "host") refl refl, f) (get-set_if_self _ host _)

  get-forwarded_proto :
      get (codes "x-forwarded-proto") (proxy_headers c id headers)
      ≡ some (c.http.from_static (proto c))
  unfolding proxy_headers
  get-forwarded_proto = get-insert_self _ _ _

-- The text of header `k`.
abbrev pub str_of : Text → Dict HeaderValue → Option Text
str_of k headers = elim (get k headers) [ none ↦ none | some v ↦ v.to_str ]

str_of-get :
    (k : Text) (headers : Dict HeaderValue) (v : HeaderValue)
    → get k headers ≡ some v
    → str_of k headers ≡ v.to_str
str_of-get k headers v e = ground arith

-- Three of the headers that the proxy sets cannot be spoofed, for a client that sends a `Host` and
-- whose address can be a header's value: whatever the client sent under these names, the backend
-- reads the address of the connection alone in `x-forwarded-for`, which is no chain, the client's
-- `Host` in `x-forwarded-host`, and the connection's protocol in `x-forwarded-proto`.
pub str_of-proxy_headers :
    (c : Context) (id : Text) (headers : Dict HeaderValue) (ip host : HeaderValue)
    → c.http.from_str c.client_ip ≡ some ip
    → get (codes "host") headers ≡ some host
    → (str_of (codes "x-forwarded-for") (proxy_headers c id headers) ≡ some c.client_ip)
      × (get (codes "x-forwarded-host") (proxy_headers c id headers) ≡ some host)
      × (str_of (codes "x-forwarded-proto") (proxy_headers c id headers) ≡ some (proto c))
str_of-proxy_headers c id headers ip host e f = (
  str_of-get _ _ ip (get-forwarded_for c id headers ip e)
      ∙ (c.http.to_str-from_str c.client_ip ip e),
  get-forwarded_host c id headers host f,
  str_of-get _ _ _ (get-forwarded_proto c id headers)
      ∙ (c.http.to_str-from_static (proto c) (proto-cases c)),
)

-- A header of any name other than those that the proxy sets reaches the backend as the client sent it.
pub get-proxy_headers :
    (c : Context) (id : Text) (headers : Dict HeaderValue) (k : Text)
    → k ≢ codes "x-request-id"
    → k ≢ codes "x-forwarded-for"
    → k ≢ codes "x-forwarded-host"
    → k ≢ codes "x-forwarded-proto"
    → get k (proxy_headers c id headers) ≡ get k headers
get-proxy_headers c id headers k a b d g =
    get-proxy_headers_ne c id headers k (differs k a) (differs k b) (differs k d) (differs k g)
