-- ===== src/Squid/Bytes.antt =====
-- packages/indexer/squid-common/src/bytes.ts: what the indexers decode from the chain. The
-- decoders of UTF-8 and of JSON are given.
pub mod Storable
use predictor_common.Prelude.Text.{Text, codes, includes, starts_with, text_eq}
use predictor_common.Prelude.Digits.{value, is_digit}
use predictor_common.Scale.{Bytes, to_hex, hex_pairs, strip_0x}
use predictor_common.Prelude.{
  ℕ, Bool, true, false, ◌&&◌, ◌||◌, ◌==◌, Option, none, some, List, [], ◌∷◌, ◌++◌, any, all,
  if◌then◌else◌,
}

unfoldable pub encode_opaque_bytes_as_hex : Bytes → Text
encode_opaque_bytes_as_hex bytes = to_hex bytes

-- A typed array of a length that is no integer takes its whole part, and a write past its end is ignored, so a digit
-- that is left over is not read.
unfoldable pub hex_to_bytes : Text → Bytes
hex_to_bytes hex = hex_pairs (strip_0x hex)

abbrev pub is_nul : ℕ → Bool
is_nul c = c == 0

abbrev pub text_or_hex : Bytes → Option Text → Text
text_or_hex bytes none = encode_opaque_bytes_as_hex bytes
text_or_hex bytes (some s) = if any is_nul s then encode_opaque_bytes_as_hex bytes else s

-- `split("\0").join("")`.
abbrev pub without_nuls : Text → Text
without_nuls [] = []
without_nuls (c ∷ s) = let rest = without_nuls s in if is_nul c then rest else c ∷ rest

pub record SubstrateData : Type 0 where
  pub kind : Text
  pub content : Option Bytes

abbrev pub is_hash : Text → Bool
is_hash kind =
    text_eq kind (codes "BlakeTwo256")
    || text_eq kind (codes "Sha256")
    || text_eq kind (codes "Keccak256")
    || text_eq kind (codes "ShaThree256")

abbrev pub map_content : (Bytes → Text) → Option Bytes → Option Text
map_content f none = none
map_content f (some bytes) = some (f bytes)

-- `utf8_fatal` fails on bytes that are no UTF-8, `utf8_lossy` replaces them.
module _ (utf8_fatal : Bytes → Option Text) (utf8_lossy : Bytes → Text) where
  unfoldable pub decode_metadata_bytes : Bytes → Text
  decode_metadata_bytes [] = []
  decode_metadata_bytes (b ∷ bytes) = text_or_hex (b ∷ bytes) (utf8_fatal (b ∷ bytes))

  unfoldable pub decode_substrate_data : SubstrateData → Option Text
  decode_substrate_data d =
      if text_eq d.kind (codes "None")
      then none
      else if is_hash d.kind
      then map_content encode_opaque_bytes_as_hex d.content
      else map_content (λ bytes. without_nuls (utf8_lossy bytes)) d.content

-- An error field: `falsy` is a value that is false, `truthy` one that is neither a string nor an object.
pub data ErrorField {ℓ} (O : Type ℓ) : Type ℓ where
  falsy truthy : ErrorField O
  object : O → ErrorField O
  string : (c : ℕ) (s : Text) → ErrorField O

-- `parse_json` gives the object of a text, and `none` for an exception, null or another value.
unfoldable pub parse_chain_error_field {ℓ} :
    {O : Type ℓ} → (Text → Option O) → ErrorField O → Option O
parse_chain_error_field parse_json falsy = none
parse_chain_error_field parse_json truthy = none
parse_chain_error_field parse_json (object o) = some o
parse_chain_error_field parse_json (string c s) =
    if text_eq (c ∷ s) (codes "[object Object]") || includes (c ∷ s) (codes "[object")
    then none
    else parse_json (c ∷ s)
