-- ===== src/EndToEnd.antt =====
-- packages/tooling/e2e/src: the configuration of the end-to-end tests, as the fields of an object. `ci`
-- is the environment's variable.
pub mod Overrides
use predictor_common.Prelude.Text.{Text, codes}
use predictor_common.Prelude.Dict.{text_key, get, put}
use predictor_common.Prelude.{
  ℕ, Bool, true, false, not, Option, none, some, List, [], ◌∷◌, if◌then◌else◌,
}

-- A field's value; `given` is a value that is handed on.
mutual
  pub data Setting : Type 0 where
    missing given : Setting
    text : Text → Setting
    number : ℕ → Setting
    flag : Bool → Setting
    object : Fields → Setting
    list : Elements → Setting

  pub data Fields : Type 0 where
    no_field : Fields
    field : Text → Setting → Fields → Fields

  pub data Elements : Type 0 where
    no_element : Elements
    element : Setting → Elements → Elements

abbrev pub Config : Type 0
Config = List (Text × Setting)

pub record E2eConfigOptions : Type 0 where
  pub test_dir : Option Text
  pub base_url : Option Text
  pub web_server : Bool
  pub overrides : Config

-- `Boolean(process.env.CI)`.
abbrev pub is_ci : Option Text → Bool
is_ci none = false
is_ci (some []) = false
is_ci (some (c ∷ s)) = true

abbrev pub or_text : Option Text → Text → Setting
or_text none fallback = text fallback
or_text (some s) fallback = text s

abbrev pub reporter : Bool → Setting
reporter true = list (
    element (list (element (text (codes "github")) no_element)) (
      element
        (list (
          element (text (codes "html"))
            (element (object (field (codes "open") (text (codes "never")) no_field)) no_element)))
        no_element))
reporter false = list (element (list (element (text (codes "list")) no_element)) no_element)

abbrev pub chromium : Setting
chromium = object (
    field (codes "name") (text (codes "chromium")) (
      field (codes "use")
        (object (
          field (codes "browserName") (text (codes "chromium")) (
            field (codes "viewport")
              (object (
                field (codes "width") (number 1280) (field (codes "height") (number 720) no_field)))
              no_field)))
        no_field))

abbrev pub use_settings : Option Text → Setting
use_settings base_url = object (
    field (codes "baseURL") (or_text base_url (codes "http://localhost:3000")) (
      field (codes "trace") (text (codes "on-first-retry"))
        (field (codes "screenshot") (text (codes "only-on-failure")) no_field)))

-- The computed fields.
abbrev pub computed : Bool → E2eConfigOptions → Config
computed ci opts =
    (codes "testDir", or_text opts.test_dir (codes "e2e"))
    ∷ (codes "fullyParallel", flag true)
    ∷ (codes "forbidOnly", flag ci)
    ∷ (codes "retries", number (if ci then 2 else 0))
    ∷ (codes "workers", if ci then number 1 else missing)
    ∷ (codes "reporter", reporter ci)
    ∷ (codes "timeout", number 30000)
    ∷ (codes "expect", object (field (codes "timeout") (number 10000) no_field))
    ∷ (codes "use", use_settings opts.base_url)
    ∷ (codes "projects", list (element chromium no_element))
    ∷ (codes "webServer", if opts.web_server then given else missing)
    ∷ []

-- `...overrides`.
abbrev pub spread : Config → Config → Config
spread config [] = config
spread config ((name, setting) ∷ rest) = spread (put config name setting) rest

unfoldable pub define_playwright_config : Option Text → E2eConfigOptions → Config
define_playwright_config ci opts = spread (computed (is_ci ci) opts) opts.overrides

pub record ServerSpec : Type 0 where
  pub command : Text
  pub url : Text
  pub cwd : Option Text
  pub env : List (Text × Text)
  pub timeout : Option ℕ
  pub reuse_existing_server : Option Bool

pub record WebServerEntry : Type 0 where
  pub command : Text
  pub url : Text
  pub cwd : Option Text
  pub env : List (Text × Text)
  pub timeout : ℕ
  pub reuse_existing_server : Bool
  pub stdout : Text
  pub stderr : Text

abbrev pub or_else {ℓ} : {A : Type ℓ} → Option A → A → A
or_else none fallback = fallback
or_else (some a) fallback = a

unfoldable pub server : Option Text → ServerSpec → WebServerEntry
server ci spec = record {
  command = spec.command;
  url = spec.url;
  cwd = spec.cwd;
  env = spec.env;
  timeout = or_else spec.timeout 60000;
  reuse_existing_server = or_else spec.reuse_existing_server (not (is_ci ci));
  stdout = codes "pipe";
  stderr = codes "pipe";
}
