-- ===== src/Squid/Primitives.antt =====
-- packages/indexer/squid-common/src/primitives.ts and factory.ts: the branded texts and numbers, and
-- their parsers. A schema gives the value of an input, `none` where the input does not fit.
pub mod Brands
use predictor_common.Prelude.Text.{Text}
use predictor_common.Prelude.Digits.{is_digit}
use predictor_common.Prelude.Int.{ℤ, pos, negsuc}
use predictor_common.Prelude.{
  ℕ, Bool, true, false, ◌&&◌, ◌||◌, ◌==◌, Option, none, some, List, [], ◌∷◌, all, leb,
  if◌then◌else◌,
}

-- `assert` throws where `parse` gives null.
pub data Asserted {ℓ} (A : Type ℓ) : Type ℓ where
  valid : A → Asserted A
  invalid : Asserted A

pub record ParserPair {ℓ κ} (A : Type ℓ) (B : Type κ) : Type (ℓ ⊔ κ) where
  pub parse : A → Option B
  pub assert : A → Asserted B

abbrev pub asserted {ℓ} : {B : Type ℓ} → Option B → Asserted B
asserted none = invalid
asserted (some b) = valid b

abbrev pub make_parser_pair {ℓ κ} : {A : Type ℓ} {B : Type κ} → (A → Option B) → ParserPair A B
make_parser_pair schema = record { parse = schema; assert = λ input. asserted (schema input) }

-- `[1-9A-HJ-NP-Za-km-z]`.
abbrev pub is_base58 : ℕ → Bool
is_base58 c =
    (leb b'1' c && leb c b'9')
    || ((leb b'A' c && leb c b'H')
        || ((leb b'J' c && leb c b'N')
            || ((leb b'P' c && leb c b'Z')
                || ((leb b'a' c && leb c b'k') || (leb b'm' c && leb c b'z')))))

-- `[0-9a-fA-F]`.
abbrev pub is_hex_digit : ℕ → Bool
is_hex_digit c = is_digit c || ((leb b'a' c && leb c b'f') || (leb b'A' c && leb c b'F'))

unfoldable pub ss58_address : Text → Option Text
ss58_address [] = none
ss58_address (c ∷ s) = if all is_base58 (c ∷ s) then some (c ∷ s) else none

abbrev pub within : ℕ → ℤ → Option ℕ
within high (negsuc n) = none
within high (pos n) = if leb n high then some n else none

unfoldable pub ss58_prefix : ℤ → Option ℕ
ss58_prefix i = within 16383 i

abbrev pub hex_after : Text → Text → Option Text
hex_after whole [] = none
hex_after whole (c ∷ []) = none
hex_after whole (c ∷ d ∷ s) =
    if c == b'0' && (d == b'x' && all is_hex_digit s) then some whole else none

unfoldable pub hex_bytes : Text → Option Text
hex_bytes s = hex_after s s

unfoldable pub block_height : ℤ → Option ℕ
block_height (negsuc n) = none
block_height (pos n) = some n
