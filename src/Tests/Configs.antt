-- ===== src/Tests/Configs.antt =====
-- The validation of a configuration.
use smaug.Prelude.{Str, Option, none, some, ◌≡◌, ◌↔◌}
use smaug.Config.Validation.{validate}
use smaug.Config.Validation.Fields.{Url}
use smaug.Config.Validation.Rules.{IsConfig}
use smaug.Config.Validation.Complete.{validate_iff}
use smaug.Tests.Data.{before}

abbrev no_url : Str → Option Url
no_url s = none

abbrev plain : Str → Option Str
plain s = some s

validate_iff_example : (validate no_url plain before ≡ none) ↔ IsConfig no_url plain before
validate_iff_example = validate_iff no_url plain before
