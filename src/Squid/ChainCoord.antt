-- ===== src/Squid/ChainCoord.antt =====
-- packages/indexer/squid-common/src/chainCoord.ts: ids `{block}-{extrinsic}-{event}[-suffix]`. The
-- three numbers are natural; `Number` is exact on the indices, which are below 2 ^ 53.
pub mod RoundTrip
use mathlib.Core.List.{reverse}
use predictor_common.Prelude.Text.{Text, codes, ends_with, split}
use predictor_common.Prelude.Digits.{decimal, value, is_digit}
use predictor_common.Prelude.{
  ℕ, suc, ◌+◌, ◌-◌, Bool, true, false, ◌&&◌, Option, none, some, List, [], ◌∷◌, ◌++◌, length, take,
  all, if◌then◌else◌,
}

pub record ChainCoord : Type 0 where
  pub block_number : ℕ
  pub extrinsic_index : ℕ
  pub event_index : ℕ

abbrev pub dash : ℕ
dash = b'-'

abbrev pub prefix : ChainCoord → Text
prefix c =
    decimal c.block_number ++ (dash ∷ (decimal c.extrinsic_index ++ (dash ∷ decimal c.event_index)))

unfoldable pub chain_coord_id_make : ChainCoord → Option Text → Text
chain_coord_id_make coord none = prefix coord
chain_coord_id_make coord (some suffix) = prefix coord ++ (dash ∷ suffix)

-- `DECIMAL_INT_RE.test(p)`.
abbrev pub is_decimal : Text → Bool
is_decimal [] = false
is_decimal (c ∷ s) = is_digit c && all is_digit s

-- `id.slice(0, -(suffix.length + 1))` behind the test of the suffix.
unfoldable pub strip_suffix : Option Text → Text → Option Text
strip_suffix none id = some id
strip_suffix (some suffix) id =
    if ends_with id (dash ∷ suffix) then some (take (length id - (length suffix + 1)) id) else none

-- The three ways in which the schema fails.
pub data Issue : Type 0 where
  missing_suffix wrong_shape not_decimal : Issue

pub data Parsed : Type 0 where
  coord : ChainCoord → Parsed
  issue : Issue → Parsed

abbrev pub of_parts : List Text → Parsed
of_parts (a ∷ b ∷ c ∷ []) =
    if is_decimal a && (is_decimal b && is_decimal c)
    then coord (record { block_number = value a; extrinsic_index = value b; event_index = value c })
    else issue not_decimal
of_parts _ = issue wrong_shape

unfoldable pub chain_coord_transform : Option Text → Text → Parsed
chain_coord_transform suffix id = elim (strip_suffix suffix id) [
  | none ↦ issue missing_suffix
  | some stripped ↦ of_parts (split dash stripped)
]

-- `parse` of the family: `null` on any issue.
unfoldable pub parse : Option Text → Text → Option ChainCoord
parse suffix id = elim (chain_coord_transform suffix id) [ coord c ↦ some c | issue i ↦ none ]
