-- ===== src/Tests/Settings.antt =====
-- A configuration with one backend.
use spawngate.Base.{◌≡◌, refl, some, [], ◌∷◌, Result, ok}
use spawngate.Base.Text.{Text, codes, text_eq}
use spawngate.Base.Dict.{get}
use spawngate.Config.{
  standard_defaults, standard_server, local_config, Config, validate_backend, validate, load,
  backend_errors,
}
use spawngate.Config.Validity.{IsRunnable, load-IsRunnable}
use spawngate.Tests.Data.{app, app_config}

abbrev settings : Config
settings = record {
  server = standard_server;
  defaults = standard_defaults;
  backends = (app, app_config) ∷ [];
}

-- A parser that reads nothing else.
abbrev parser : Text → Result Text Config
parser _ = ok settings

load-settings : load parser (ok (codes "[backends]")) ≡ ok settings
unfolding load validate validate_backend local_config backend_errors
load-settings = refl

get-settings : get app settings.backends ≡ some app_config
unfolding get text_eq
get-settings = refl

load-IsRunnable_example : IsRunnable app_config
load-IsRunnable_example =
    load-IsRunnable parser (ok (codes "[backends]")) settings app app_config load-settings
      get-settings
