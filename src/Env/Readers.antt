-- ===== src/Env/Readers.antt =====
-- What the readers of packages/service/env/src/index.ts accept.
use predictor_common.Prelude.Text.{Text, has}
use predictor_common.Prelude.Int.{ℤ, pos, negsuc}
use predictor_common.Prelude.{
  ℕ, ◌≤◌, ◌≡◌, ◌≢◌, refl, ap, ◌∙◌, ◌⊎◌, inl, inr, Bool, true, false, Bool-cases, Option, none, some,
  List, [], ◌∷◌, leb, arith, if◌then◌else◌, ◌&&◌, and_iff,
}
use predictor_common.Env.{
  Read, value_of, issue, blank_as_undefined, in_range, port_env, true_words, false_words,
  normalized, bool_message, bool_of, bool_env,
}

abbrev pub words : Bool → List Text
words true = true_words
words false = false_words

-- What a text reads as: a Boolean if it is one of its words, and an issue if it is none's.
abbrev pub Spelt : Text → Read Bool → Type 0
Spelt v result =
    ((b : Bool) × (has (words b) (normalized v) ≡ true) × (result ≡ value_of b))
    ⊎ (((b : Bool) → has (words b) (normalized v) ≡ false) × (result ≡ issue (bool_message v)))

neither :
    (v : Text)
    → has true_words (normalized v) ≡ false
    → has false_words (normalized v) ≡ false
    → (b : Bool) → has (words b) (normalized v) ≡ false
neither v no_true no_false true = no_true
neither v no_true no_false false = no_false

abbrev later : Text → Read Bool
later w = if has false_words (normalized w) then value_of false else issue (bool_message w)

bool_of-Spelt : (v : Text) → Spelt v (bool_of v)
bool_of-Spelt v = elim (Bool-cases (has true_words (normalized v))) [
  | inl is ↦ inl (true, is, ap (λ t. if t then value_of true else later v) is)
  | inr other ↦ elim (Bool-cases (has false_words (normalized v))) [
    | inl is ↦ inl (
      false,
      is,
      ap (λ t. if t then value_of true else later v) other
          ∙ ap (λ t. if t then value_of false else issue (bool_message v)) is,
    )
    | inr odd ↦ inr (
      neither v other odd,
      ap (λ t. if t then value_of true else later v) other
          ∙ ap (λ t. if t then value_of false else issue (bool_message v)) odd,
    )
  ]
]

-- For every fallback: a variable that is not set or is empty reads as the fallback; any other, trimmed and
-- in lower case, reads as the Boolean of which it is a word, and is an issue if it is a word of neither.
pub bool_env_cases :
    (fallback : Bool) (variable : Option Text)
    → (((variable ≡ none) ⊎ (variable ≡ some []))
        × (bool_env fallback variable ≡ value_of fallback))
      ⊎ ((v : Text) × (variable ≡ some v) × (v ≢ []) × Spelt v (bool_env fallback variable))
unfolding bool_env blank_as_undefined
bool_env_cases fallback none = inl (inl refl, refl)
bool_env_cases fallback (some []) = inl (inr refl, refl)
bool_env_cases fallback (some (c ∷ s)) = inr (c ∷ s, refl, (λ e. cc e), bool_of-Spelt (c ∷ s))

in_range-port :
    (o : Option ℤ) (port : ℤ)
    → in_range 1 (some 65535) o ≡ value_of port
    → (n : ℕ) × (port ≡ pos n) × (o ≡ some (pos n)) × (1 ≤ n) × (n ≤ 65535)
in_range-port none port h = absurd (cc h)
in_range-port (some (negsuc n)) port h = absurd (cc h)
in_range-port (some (pos n)) port h = elim (Bool-cases (leb 1 n && leb n 65535)) [
  | inl fits ↦
      let (low, high) = (and_iff (leb 1 n) (leb n 65535)).0 fits in
      let is : value_of (pos n) ≡ value_of port = rw fits at h in
      (n, cc is, refl, ground (arith, low), ground (arith, high))
  | inr odd ↦ absurd (cc (rw odd at h))
]

-- A port that is set and read is an integer from 1 to 65535.
pub port_env-bounds :
    (integer_of : Text → Option ℤ) (fallback port : ℤ) (c : ℕ) (s : Text)
    → port_env integer_of fallback (some (c ∷ s)) ≡ value_of port
    → (n : ℕ) × (port ≡ pos n) × (integer_of (c ∷ s) ≡ some (pos n)) × (1 ≤ n) × (n ≤ 65535)
unfolding port_env blank_as_undefined
port_env-bounds integer_of fallback port c s h = in_range-port (integer_of (c ∷ s)) port h
