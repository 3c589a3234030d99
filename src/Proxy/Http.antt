-- ===== src/Proxy/Http.antt =====
-- A request as the HTTP library gives it to src/proxy.rs and src/admin.rs. Names of headers are in
-- lower case, as the library keeps them; `get` gives the first value of a name.
use spawngate.Base.{◌≡◌, ◌⊎◌, Option, none, some}
use spawngate.Base.Text.{Text, codes}
use spawngate.Base.Dict.{Dict, get}

-- The value of a header: what `to_str` gives, if the value is visible ASCII.
pub record HeaderValue : Type 0 where
  pub to_str : Option Text

pub record Request : Type 0 where
  pub method : Text
  pub path : Text
  pub path_and_query : Option Text
  pub headers : Dict HeaderValue

-- Of the HTTP library: `HeaderValue::from_str` and `from_static`, whose values have the text that they
-- were made from, and the name that `Response::builder` makes of a text, if it takes it for a name.
pub record HeaderValues : Type 0 where
  pub from_str : Text → Option HeaderValue
  pub from_static : Text → HeaderValue
  pub name_of : Text → Option Text
  pub to_str-from_str : (t : Text) (v : HeaderValue) → from_str t ≡ some v → v.to_str ≡ some t
  pub to_str-from_static :
      (t : Text) → (t ≡ codes "http") ⊎ (t ≡ codes "https") → (from_static t).to_str ≡ some t

-- `headers().get(name).and_then(|v| v.to_str().ok())`
unfoldable pub header_str : Text → Request → Option Text
header_str name req = elim (get name req.headers) [ none ↦ none | some v ↦ v.to_str ]
