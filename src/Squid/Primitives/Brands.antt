-- ===== src/Squid/Primitives/Brands.antt =====
-- What packages/indexer/squid-common/src makes of bytes fits the brand of hexadecimal texts.
use predictor_common.Prelude.Text.{Text}
use predictor_common.Scale
use predictor_common.Scale.{Bytes, to_hex}
use predictor_common.Scale.LittleEndian.{IsByte}
use predictor_common.Scale.Hex.{IsHexDigit, hex_bytes-IsHexDigit}
use predictor_common.Prelude.{ℕ, ◌≡◌, refl, true, inl, inr, some, [], ◌∷◌, all, All, arith}
use predictor_common.Squid.Bytes.{encode_opaque_bytes_as_hex, hex_to_bytes}
use predictor_common.Squid.Bytes.Storable.{hex_to_bytes-encode}
use predictor_common.Squid.Primitives.{is_hex_digit, hex_bytes}

is_hex_digit-IsHexDigit : (c : ℕ) → IsHexDigit c → is_hex_digit c ≡ true
is_hex_digit-IsHexDigit c (inl (low, high)) = ground arith
is_hex_digit-IsHexDigit c (inr (low, high)) = ground arith

all-IsHexDigit : (s : Text) → All IsHexDigit s → all is_hex_digit s ≡ true
all-IsHexDigit [] h = refl
all-IsHexDigit (c ∷ s) (h, hs) = rw (is_hex_digit-IsHexDigit c h) (all-IsHexDigit s hs)

-- The text that bytes are stored as is accepted as it is, and reads back as the bytes.
pub hex_bytes-encode :
    (bytes : Bytes)
    → All IsByte bytes
    → (hex_bytes (encode_opaque_bytes_as_hex bytes) ≡ some (encode_opaque_bytes_as_hex bytes))
      × (hex_to_bytes (encode_opaque_bytes_as_hex bytes) ≡ bytes)
unfolding hex_bytes encode_opaque_bytes_as_hex to_hex
hex_bytes-encode bytes h = (
  rw (all-IsHexDigit (Scale.hex_bytes bytes) (hex_bytes-IsHexDigit bytes h)) refl,
  hex_to_bytes-encode bytes h,
)
