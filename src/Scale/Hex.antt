-- ===== src/Scale/Hex.antt =====
-- `toHex` and `fromHex` of packages/chain/scale/src/index.ts.
use predictor_common.Prelude.Text.{Text, trim_start, pad_start}
use predictor_common.Prelude.{
  ℕ, zero, suc, ◌*◌, ◌/◌, ◌%◌, ◌<◌, ◌≤◌, ◌≡◌, refl, ap, ◌⊎◌, inl, inr, Bool, true, false, Option,
  none, some, [], ◌∷◌, length, All, ltb, lt→ltb, ◌==◌, ==_iff, Bool-cases, arith,
}
use predictor_common.Scale.{
  Bytes, hex_digit, hex_of_byte, hex_bytes, to_hex, parse_byte, hex_pairs, strip_0x, from_hex,
  stored, stored_negative, signed_byte, unsigned_hex,
}
use predictor_common.Scale.LittleEndian.{IsByte}

-- To check a test at every number under a bound by running it.
passes_under : (ℕ → Bool) → ℕ → Bool
passes_under test zero = true
passes_under test (suc bound) = elim (test bound) [ false ↦ false | true ↦ passes_under test bound ]

passes_at :
    (test : ℕ → Bool) (bound x : ℕ) → passes_under test bound ≡ true → x < bound → test x ≡ true
unfolding passes_under
passes_at test zero x h low = absurd (omega arith)
passes_at test (suc bound) x h low = ground (arith, passes_at test bound x)

small_byte :
    (b : ℕ)
    → b < 256
    → b < 16
    → pad_start (hex_of_byte b) 2 b'0' ≡ hex_digit (b / 16) ∷ hex_digit (b % 16) ∷ []
small_byte b h small =
    let e : b / 16 ≡ 0 = omega arith in
    let e' : b % 16 ≡ b = omega arith in rw (lt→ltb b 16 small, hex_of_byte, e, e')

-- Every byte is written as two digits.
two_digits :
    (b : ℕ)
    → b < 256
    → pad_start (hex_of_byte b) 2 b'0' ≡ hex_digit (b / 16) ∷ hex_digit (b % 16) ∷ []
two_digits b h = elim (Bool-cases (ltb b 16)) [
  | inl small ↦ small_byte b h (ground arith)
  | inr large ↦ rw (large, hex_of_byte)
]

reads_back : ℕ → Bool
unfolding parse_byte
reads_back b = parse_byte (hex_digit (b / 16) ∷ hex_digit (b % 16) ∷ []) == b

reads_back_everywhere : passes_under reads_back 256 ≡ true
unfolding passes_under reads_back
reads_back_everywhere = refl

parse_byte-digits :
    (b : ℕ) → b < 256 → parse_byte (hex_digit (b / 16) ∷ hex_digit (b % 16) ∷ []) ≡ b
parse_byte-digits b h =
    (==_iff _ b).0 (unfold reads_back in passes_at reads_back 256 b reads_back_everywhere h)

pub hex_pairs-hex_bytes : (bytes : Bytes) → All IsByte bytes → hex_pairs (hex_bytes bytes) ≡ bytes
unfolding hex_pairs
hex_pairs-hex_bytes [] h = refl
hex_pairs-hex_bytes (b ∷ bytes) (h, hs) =
    rw (two_digits b h, parse_byte-digits b h, hex_pairs-hex_bytes bytes hs)

pub length-hex_bytes :
    (bytes : Bytes) → All IsByte bytes → length (hex_bytes bytes) ≡ 2 * length bytes
length-hex_bytes [] h = refl
length-hex_bytes (b ∷ bytes) (h, hs) =
    rw (two_digits b h) (omega (arith, length-hex_bytes bytes hs))

-- Every byte array is read back from its hexadecimal form.
pub from_hex-to_hex : (bytes : Bytes) → All IsByte bytes → from_hex (to_hex bytes) ≡ some bytes
unfolding from_hex to_hex
from_hex-to_hex bytes h =
    let even : (length (hex_bytes bytes) % 2 == 0) ≡ true =
      rw (length-hex_bytes bytes h) ((==_iff _ 0).1 (omega arith)) in
    rw even (ap some (hex_pairs-hex_bytes bytes h))

-- A lower-case hexadecimal digit.
abbrev pub IsHexDigit : ℕ → Type 0
IsHexDigit c = ((b'0' ≤ c) × (c ≤ b'9')) ⊎ ((b'a' ≤ c) × (c ≤ b'f'))

hex_digit-IsHexDigit : (d : ℕ) → d < 16 → IsHexDigit (hex_digit d)
hex_digit-IsHexDigit d h = ground arith

pub hex_bytes-IsHexDigit : (bytes : Bytes) → All IsByte bytes → All IsHexDigit (hex_bytes bytes)
hex_bytes-IsHexDigit [] h = tt
hex_bytes-IsHexDigit (b ∷ bytes) (h, hs) = rw (two_digits b h) (
  hex_digit-IsHexDigit (b / 16) (omega arith),
  (hex_digit-IsHexDigit (b % 16) (omega arith), hex_bytes-IsHexDigit bytes hs),
)

stored-IsByte : (o : Option ℕ) → IsByte (stored o)
stored-IsByte none = omega arith
stored-IsByte (some n) = omega arith

stored_negative-IsByte : (o : Option ℕ) → IsByte (stored_negative o)
stored_negative-IsByte none = omega arith
stored_negative-IsByte (some n) = omega arith

signed_byte-IsByte : (s : Text) → IsByte (signed_byte s)
signed_byte-IsByte [] = omega arith
signed_byte-IsByte (c ∷ s) = elim (Bool-cases (c == b'-')) [
  | inl minus ↦ rw minus (stored_negative-IsByte (unsigned_hex s))
  | inr other ↦ rw other (elim (Bool-cases (c == b'+')) [
    | inl plus ↦ rw plus (stored-IsByte (unsigned_hex s))
    | inr digit ↦ rw digit (stored-IsByte (unsigned_hex (c ∷ s)))
  ])
]

pub hex_pairs-IsByte : (s : Text) → All IsByte (hex_pairs s)
unfolding hex_pairs parse_byte
hex_pairs-IsByte [] = tt
hex_pairs-IsByte (a ∷ []) = tt
hex_pairs-IsByte (a ∷ b ∷ s) = (signed_byte-IsByte (trim_start (a ∷ b ∷ [])), hex_pairs-IsByte s)

pub length-hex_pairs : (s : Text) → length (hex_pairs s) ≡ length s / 2
unfolding hex_pairs
length-hex_pairs [] = omega arith
length-hex_pairs (a ∷ []) = omega arith
length-hex_pairs (a ∷ b ∷ s) = omega (arith, length-hex_pairs s)

-- `fromHex` refuses exactly the texts whose length without the prefix is odd; otherwise it returns
-- half as many bytes as there are code units, whatever they are.
pub from_hex_cases :
    (hex : Text)
    → ((length (strip_0x hex) % 2 ≡ 1) × (from_hex hex ≡ none))
      ⊎ ((bytes : Bytes) × (from_hex hex ≡ some bytes)
          × All IsByte bytes
          × (2 * length bytes ≡ length (strip_0x hex)))
unfolding from_hex
from_hex_cases hex = elim (Bool-cases (length (strip_0x hex) % 2 == 0)) [
  | inl even ↦ inr (
    hex_pairs (strip_0x hex),
    rw (even, from_hex),
    hex_pairs-IsByte (strip_0x hex),
    omega (arith, length-hex_pairs (strip_0x hex), (==_iff _ 0).0 even),
  )
  | inr odd ↦ inl (ground arith, rw (odd, from_hex))
]
