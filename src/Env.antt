-- ===== src/Env.antt =====
-- packages/service/env/src/index.ts: the readers of environment variables and the gate at boot. A
-- variable that is not set is `none`; zod's `coerce.number().int()` is given as the integer of a text.
pub mod Readers
use mathlib.Core.List.{map}
use predictor_common.Prelude.Text.{Text, codes, trim, join, has, lower}
use predictor_common.Prelude.Int.{ℤ, pos, negsuc}
use predictor_common.Prelude.{
  ℕ, zero, suc, Bool, true, false, ◌&&◌, Option, none, some, List, [], ◌∷◌, ◌++◌, leb,
  if◌then◌else◌, ◌⊎◌, inl, inr,
}

pub record Issue : Type 0 where
  pub path : List Text
  pub message : Text

-- A reader's value, a text that zod rejects, or the message of the reader's own issue.
pub data Read {ℓ} (A : Type ℓ) : Type ℓ where
  value_of : A → Read A
  rejected : Read A
  issue : Text → Read A

unfoldable pub blank_as_undefined : Option Text → Option Text
blank_as_undefined none = none
blank_as_undefined (some []) = none
blank_as_undefined (some (c ∷ s)) = some (c ∷ s)

abbrev pub filled : Option Text → Read Text
filled none = rejected
filled (some s) = value_of s

unfoldable pub required_string : Option Text → Read Text
required_string variable = filled (blank_as_undefined variable)

abbrev pub or_else {ℓ} : {A : Type ℓ} → A → (Text → Read A) → Option Text → Read A
or_else fallback read none = value_of fallback
or_else fallback read (some s) = read s

unfoldable pub string_env : Text → Option Text → Read Text
string_env fallback variable = or_else fallback value_of (blank_as_undefined variable)

-- An integer from the first bound on, up to the second if there is one.
abbrev pub in_range : ℕ → Option ℕ → Option ℤ → Read ℤ
in_range low high none = rejected
in_range low high (some (negsuc n)) = rejected
in_range low none (some (pos n)) = if leb low n then value_of (pos n) else rejected
in_range low (some high) (some (pos n)) =
    if leb low n && leb n high then value_of (pos n) else rejected

module _ (integer_of : Text → Option ℤ) where
  abbrev pub number_env : ℕ → Option ℕ → ℤ → Option Text → Read ℤ
  number_env low high fallback variable =
      or_else fallback (λ s. in_range low high (integer_of s)) (blank_as_undefined variable)

  unfoldable pub positive_int_env : ℤ → Option Text → Read ℤ
  positive_int_env fallback variable = number_env 1 none fallback variable

  unfoldable pub int_env : ℤ → Option Text → Read ℤ
  int_env fallback variable = number_env 0 none fallback variable

  unfoldable pub port_env : ℤ → Option Text → Read ℤ
  port_env fallback variable = number_env 1 (some 65535) fallback variable

abbrev pub true_words : List Text
true_words = codes "true" ∷ codes "1" ∷ codes "yes" ∷ codes "on" ∷ []

abbrev pub false_words : List Text
false_words = codes "false" ∷ codes "0" ∷ codes "no" ∷ codes "off" ∷ []

abbrev pub normalized : Text → Text
normalized v = map lower (trim v)

abbrev pub bool_message : Text → Text
bool_message v =
    codes "expected a boolean ("
    ++ (join (codes "/") (true_words ++ false_words) ++ (codes "), got \"" ++ (v ++ codes "\"")))

abbrev pub bool_of : Text → Read Bool
bool_of v =
    if has true_words (normalized v)
    then value_of true
    else if has false_words (normalized v)
    then value_of false
    else issue (bool_message v)

unfoldable pub bool_env : Bool → Option Text → Read Bool
bool_env fallback variable = or_else fallback bool_of (blank_as_undefined variable)

abbrev pub or_root : Text → Text
or_root [] = codes "(root)"
or_root (c ∷ s) = c ∷ s

abbrev pub format_issue : Issue → Text
format_issue i = or_root (join (codes ".") i.path) ++ (codes ": " ++ i.message)

unfoldable pub format_issues : List Issue → Text
format_issues issues = join (codes "; ") (map format_issue issues)

abbrev pub or_label : Option Text → Text
or_label none = codes "invalid environment"
or_label (some label) = label

-- `inl` is the message of the error that is thrown. The schema is given, with its issues.
unfoldable pub parse_env {ℓ κ} :
    {S : Type ℓ} {A : Type κ} → (S → List Issue ⊎ A) → Option S → S → Option Text → Text ⊎ A
parse_env schema env process_env label =
    elim (schema (elim env [ none ↦ process_env | some source ↦ source ])) [
      | inl issues ↦ inl (or_label label ++ (codes ": " ++ format_issues issues))
      | inr config ↦ inr config
    ]
