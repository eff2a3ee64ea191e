-- ===== src/Config/Loader.antt =====
-- internal/config/loader.go. Reading the file, os.LookupEnv, yaml.Unmarshal, url.Parse and base64
-- decoding are arguments: `none` is their error.
use smaug.Prelude.{Str, List, Option, none, some, ◌≡◌, arith}
use smaug.Config.Types.{Config}
use smaug.Config.Substitute.{substitute_env}
use smaug.Config.Validation.{validate}
use smaug.Config.Validation.Fields.{FieldError, Url}

pub data LoadError : Type 0 where
  unreadable malformed : LoadError
  invalid : List FieldError → LoadError

pub data Loaded : Type 0 where
  loaded : Config → Loaded
  refused : LoadError → Loaded

-- What Load calls.
pub record Libraries : Type 0 where
  pub lookup_env : Str → Option Str
  pub unmarshal : Str → Option Config
  pub parse_url : Str → Option Url
  pub decode_base64 : Str → Option Str

unfoldable check_valid : Libraries → Config → Loaded
check_valid lib c = elim (validate lib.parse_url lib.decode_base64 c) [
  | none ↦ Loaded.loaded c
  | some errs ↦ Loaded.refused (LoadError.invalid errs)
]

-- Load, given what reading the file comes to.
unfoldable pub load : Libraries → Option Str → Loaded
unfolding check_valid
load lib none = Loaded.refused LoadError.unreadable
load lib (some text) = elim (lib.unmarshal (substitute_env lib.lookup_env text)) [
  | none ↦ Loaded.refused LoadError.malformed
  | some c ↦ check_valid lib c
]

-- What is loaded has passed the validation.
pub load-validate :
    (lib : Libraries) (file : Option Str) (c : Config)
    → load lib file ≡ Loaded.loaded c
    → validate lib.parse_url lib.decode_base64 c ≡ none
unfolding load check_valid
load-validate lib none c e = ground arith
load-validate lib (some text) c e = ground arith
