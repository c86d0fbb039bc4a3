-- ===== src/Squid/SpecId.antt =====
-- `parseSpecId` of packages/indexer/squid-common/src/spec.ts. What `Number.parseInt` makes of an
-- integer that no double has is a parameter.
pub mod RoundTrip
use predictor_common.Prelude.Text.{Text}
use predictor_common.Prelude.Digits.{value, is_digit}
use predictor_common.Prelude.{ℕ, Bool, true, false, ◌&&◌, ◌==◌, Option, none, some, [], ◌∷◌, all}

pub record SpecId : Type 0 where
  pub spec_name : Text
  pub spec_version : Option ℕ

-- `\d+$` from here on.
abbrev pub is_version : Text → Bool
is_version [] = false
is_version (c ∷ s) = all is_digit (c ∷ s)

-- The leftmost match of `/@(\d+)$/`: what stands before it, and the digits.
unfoldable pub match_version : Text → Option (Text × Text)
match_version [] = none
match_version (c ∷ s) =
    let later = match_version s in
    elim (c == b'@' && is_version s) [
      | true ↦ some ([], s)
      | false ↦ elim later [ none ↦ none | some (before, digits) ↦ some (c ∷ before, digits) ]
    ]

module _ (to_number : ℕ → ℕ) where
  abbrev pub of_match : Text → Option (Text × Text) → SpecId
  of_match spec_id none = record { spec_name = spec_id; spec_version = none }
  of_match spec_id (some (before, digits)) = record {
    spec_name = before;
    spec_version = some (to_number (value digits));
  }

  unfoldable pub parse_spec_id : Text → SpecId
  unfolding match_version
  parse_spec_id spec_id = of_match spec_id (match_version spec_id)
