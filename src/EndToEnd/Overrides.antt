-- ===== src/EndToEnd/Overrides.antt =====
-- Which settings of packages/tooling/e2e/src/config.ts a consumer's own replace.
use predictor_common.Prelude.Text.{Text, text_eq}
use predictor_common.Prelude.Dict.{text_key, get, put, get-put}
use predictor_common.Prelude.{◌≡◌, refl, ◌∙◌, Option, none, some, [], ◌∷◌, if◌then◌else◌, arith}
use predictor_common.EndToEnd.{
  Setting, Config, E2eConfigOptions, is_ci, computed, spread, define_playwright_config,
}

abbrev pub or_setting : Option Setting → Option Setting → Option Setting
or_setting none fallback = fallback
or_setting (some setting) fallback = some setting

-- The last of the settings under this name.
abbrev pub last_setting : Config → Text → Option Setting
last_setting [] name = none
last_setting ((n, setting) ∷ rest) name =
    or_setting (last_setting rest name) (if text_eq n name then some setting else none)

get-spread :
    (config overrides : Config) (name : Text)
    → get (spread config overrides) name
      ≡ or_setting (last_setting overrides name) (get config name)
get-spread config [] name = refl
get-spread config ((n, setting) ∷ rest) name =
    get-spread (put config n setting) rest name ∙ ground (arith, get-put config n setting name)

-- A setting of the configuration is the consumer's own where there is one, the last if there are several,
-- and the computed one otherwise, in continuous integration and outside.
pub get-define_playwright_config :
    (ci : Option Text) (opts : E2eConfigOptions) (name : Text)
    → get (define_playwright_config ci opts) name
      ≡ or_setting (last_setting opts.overrides name) (get (computed (is_ci ci) opts) name)
unfolding define_playwright_config
get-define_playwright_config ci opts name =
    get-spread (computed (is_ci ci) opts) opts.overrides name
