-- ===== src/Signer/Accounts.antt =====
-- The conversions of `AccountUtils` in packages/chain/substrate-signer/src/index.ts.
use predictor_common.Prelude.Text.{Text, trim}
use predictor_common.Scale.{Bytes, hex_bytes, to_hex}
use predictor_common.Prelude.Trim.{IsSolid, trim-IsSolid}
use predictor_common.Scale.LittleEndian.{IsByte}
use predictor_common.Scale.Hex.{IsHexDigit, from_hex-to_hex, length-hex_bytes, hex_bytes-IsHexDigit}
use predictor_common.Prelude.{
  ◌≡◌, ◌≢◌, refl, true, false, ◌==◌, ==_iff, [], ◌∷◌, length, all, All, arith,
}
use predictor_common.Signer.{
  Sr25519, prd_ss58_prefix, ok, is_hex_digit, is_32_byte_hex, is_account_pk,
  address_to_public_key_bytes, address_to_public_key, public_key_to_address,
  convert_to_public_key_if_needed, convert_to_address, convert_to_public_key_bytes,
}
use predictor_common.Signer.Agreement.{CodecLaws}

all-is_hex_digit : (s : Text) → All IsHexDigit s → all is_hex_digit s ≡ true
all-is_hex_digit [] h = refl
all-is_hex_digit (c ∷ s) (h, hs) = ground (arith, all-is_hex_digit s hs)

hex-IsSolid : (s : Text) → All IsHexDigit s → IsSolid s
hex-IsSolid [] h = tt
hex-IsSolid (c ∷ s) (h, hs) = (ground (arith, h), hex-IsSolid s hs)

pub trim-to_hex : (key : Bytes) → All IsByte key → trim (to_hex key) ≡ to_hex key
unfolding to_hex
trim-to_hex key h =
    trim-IsSolid (to_hex key)
      (refl, (refl, hex-IsSolid (hex_bytes key) (hex_bytes-IsHexDigit key h)))

-- The hexadecimal form of 32 bytes is taken for a public key.
pub is_32_byte_hex-to_hex :
    (key : Bytes) → All IsByte key → length key ≡ 32 → is_32_byte_hex (to_hex key) ≡ true
unfolding to_hex
is_32_byte_hex-to_hex key h size =
    let long : (length (to_hex key) == 66) ≡ true =
      (==_iff _ 66).1 (omega (arith, length-hex_bytes key h, size)) in
    ground (arith, long, all-is_hex_digit (hex_bytes key) (hex_bytes-IsHexDigit key h))

is_account_pk-to_hex :
    (key : Bytes) → All IsByte key → length key ≡ 32 → is_account_pk (to_hex key) ≡ true
is_account_pk-to_hex key h size = rw (trim-to_hex key h) (is_32_byte_hex-to_hex key h size)

-- Base58 has no digit zero, so an address is not taken for a key.
abbrev pub HasNoZero : Text → Type 0
HasNoZero s = All (λ c. c ≢ b'0') s

is_32_byte_hex-HasNoZero : (s : Text) → HasNoZero s → is_32_byte_hex s ≡ false
is_32_byte_hex-HasNoZero [] h = refl
is_32_byte_hex-HasNoZero (c ∷ s) (h, hs) = ground (arith, h)

-- Over a codec that reads its own addresses back and whose addresses have no digit zero: for every
-- key of 32 bytes, the hexadecimal form converts to the address of the key, the address back to the
-- hexadecimal form and to the bytes, and each conversion leaves alone what is in its form already.
pub convert_roundtrip :
    (sr : Sr25519) (key : Bytes)
    → CodecLaws sr
    → HasNoZero (sr.ss58_address key prd_ss58_prefix)
    → All IsByte key
    → length key ≡ 32
    → (convert_to_address sr (to_hex key) ≡ ok (sr.ss58_address key prd_ss58_prefix))
      × (convert_to_address sr (sr.ss58_address key prd_ss58_prefix)
          ≡ ok (sr.ss58_address key prd_ss58_prefix))
      × (convert_to_public_key_if_needed sr (sr.ss58_address key prd_ss58_prefix) ≡ ok (to_hex key))
      × (convert_to_public_key_if_needed sr (to_hex key) ≡ ok (to_hex key))
      × (convert_to_public_key_bytes sr (sr.ss58_address key prd_ss58_prefix) ≡ ok key)
      × (convert_to_public_key_bytes sr (to_hex key) ≡ ok key)
unfolding convert_to_address convert_to_public_key_if_needed convert_to_public_key_bytes
    public_key_to_address address_to_public_key address_to_public_key_bytes
convert_roundtrip sr key laws no_zero bytes size =
    let is_key : is_account_pk (to_hex key) ≡ true = is_account_pk-to_hex key bytes size in
    let no_key : is_account_pk (sr.ss58_address key prd_ss58_prefix) ≡ false =
      rw (laws.address_trim key size)
        (is_32_byte_hex-HasNoZero (sr.ss58_address key prd_ss58_prefix) no_zero) in
    (
      simp (is_key, from_hex-to_hex key bytes),
      simp no_key,
      simp (no_key, laws.address_read key size),
      simp is_key (simp (trim-to_hex key bytes)),
      simp (no_key, laws.address_read key size),
      simp is_key (simp (trim-to_hex key bytes, from_hex-to_hex key bytes)),
    )
