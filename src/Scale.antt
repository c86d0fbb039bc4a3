-- ===== src/Scale.antt =====
-- packages/chain/scale/src/index.ts: the SCALE helpers. A `Uint8Array` is a list of numbers below
-- 256; a shift and a mask are written as division and remainder by the power of two.
pub mod Concat
pub mod LittleEndian
pub mod Compact
pub mod Hex
use predictor_common.Prelude.Int.{ℤ, pos, negsuc}
use predictor_common.Prelude.Text.{Text, codes, starts_with, trim_start, pad_start}
use predictor_common.Prelude.{
  ℕ, zero, suc, ◌+◌, ◌-◌, ◌*◌, ◌/◌, ◌%◌, ◌^◌, Bool, true, false, ◌&&◌, ◌||◌, Option, none, some,
  List, [], ◌∷◌, ◌++◌, ltb, leb, ◌==◌, if◌then◌else◌, length, take, drop, replicate,
}

abbrev pub Bytes : Type 0
Bytes = List ℕ

-- `out.set(p, offset)` where the part fits, as it does in the loop below.
abbrev pub write_at : Bytes → ℕ → Bytes → Bytes
write_at out offset p = take offset out ++ (p ++ drop (offset + length p) out)

-- The `reduce` over the lengths.
abbrev pub total_length : ℕ → List Bytes → ℕ
total_length n [] = n
total_length n (p ∷ parts) = total_length (n + length p) parts

pub fill : List Bytes → ℕ → Bytes → Bytes
fill [] offset out = out
fill (p ∷ parts) offset out = fill parts (offset + length p) (write_at out offset p)

unfoldable pub concat_bytes : List Bytes → Bytes
unfolding fill
concat_bytes parts = fill parts 0 (replicate (total_length 0 parts) 0)

-- The loop `while (x > 0n)`; each round drops eight bits, so `x` rounds are enough.
pub le_bytes : ℕ → ℕ → Bytes
le_bytes zero x = []
le_bytes (suc f) x = elim (ltb 0 x) [ true ↦ x % 256 ∷ le_bytes f (x / 256) | false ↦ [] ]

pub big_compact : ℕ → Bytes
unfolding le_bytes
big_compact v = let bytes = le_bytes v v in ((length bytes - 4) * 4 + 3) % 256 ∷ bytes

-- `none` is the `RangeError`.
unfoldable pub compact : ℤ → Option Bytes
unfolding big_compact
compact (negsuc n) = none
compact (pos v) = some (
    if ltb v (2 ^ 6)
    then v * 4 ∷ []
    else if ltb v (2 ^ 14)
    then (v * 4 + 1) % 256 ∷ v / 2 ^ 6 % 256 ∷ []
    else if ltb v (2 ^ 30)
    then (v * 4 + 2) % 256 ∷ v / 2 ^ 6 % 256 ∷ v / 2 ^ 14 % 256 ∷ v / 2 ^ 22 % 256 ∷ []
    else big_compact v)

-- `BigInt.asUintN(64, value)`.
abbrev pub as_uint64 : ℤ → ℕ
as_uint64 (pos n) = n % 2 ^ 64
as_uint64 (negsuc n) = 2 ^ 64 - 1 - n % 2 ^ 64

-- The loop of `u64le`, by the rounds left.
pub low_bytes : ℕ → ℕ → Bytes
low_bytes zero x = []
low_bytes (suc i) x = x % 256 ∷ low_bytes i (x / 256)

unfoldable pub u64le : ℤ → Bytes
unfolding low_bytes
u64le value = low_bytes 8 (as_uint64 value)

unfoldable pub scale_bytes : Bytes → Option Bytes
scale_bytes bytes = elim (compact (pos (length bytes))) [
  | none ↦ none
  | some prefix ↦ some (concat_bytes (prefix ∷ bytes ∷ []))
]

-- One digit of `toString(16)`.
abbrev pub hex_digit : ℕ → ℕ
hex_digit d = if ltb d 10 then b'0' + d else b'a' + (d - 10)

-- `b.toString(16)` of a byte.
abbrev pub hex_of_byte : ℕ → Text
hex_of_byte b = if ltb b 16 then hex_digit b ∷ [] else hex_digit (b / 16) ∷ hex_digit (b % 16) ∷ []

abbrev pub hex_bytes : Bytes → Text
hex_bytes [] = []
hex_bytes (b ∷ bytes) = pad_start (hex_of_byte b) 2 b'0' ++ hex_bytes bytes

unfoldable pub to_hex : Bytes → Text
to_hex bytes = b'0' ∷ b'x' ∷ hex_bytes bytes

-- The value of a hexadecimal digit.
abbrev pub hex_value : ℕ → Option ℕ
hex_value c =
    if leb b'0' c && leb c b'9'
    then some (c - b'0')
    else if leb b'a' c && leb c b'f'
    then some (c - b'a' + 10)
    else if leb b'A' c && leb c b'F'
    then some (c - b'A' + 10)
    else none

-- `Number.parseInt(s, 16)`: the longest run of digits, `none` for NaN.
abbrev pub hex_run : Option ℕ → Text → Option ℕ
hex_run acc [] = acc
hex_run acc (c ∷ s) = elim (hex_value c) [
  | none ↦ acc
  | some d ↦ hex_run (some (elim acc [ none ↦ d | some n ↦ n * 16 + d ])) s
]

abbrev pub is_hex_mark : ℕ → ℕ → Bool
is_hex_mark a b = a == b'0' && (b == b'x' || b == b'X')

abbrev pub unsigned_hex : Text → Option ℕ
unsigned_hex [] = none
unsigned_hex (a ∷ []) = hex_run none (a ∷ [])
unsigned_hex (a ∷ b ∷ s) = if is_hex_mark a b then hex_run none s else hex_run none (a ∷ b ∷ s)

-- The sign is read with the stored byte: a negative value is stored modulo 256, and NaN as 0.
abbrev pub stored : Option ℕ → ℕ
stored none = 0
stored (some n) = n % 256

abbrev pub stored_negative : Option ℕ → ℕ
stored_negative none = 0
stored_negative (some n) = (256 - n % 256) % 256

abbrev pub signed_byte : Text → ℕ
signed_byte [] = 0
signed_byte (c ∷ s) =
    if c == b'-'
    then stored_negative (unsigned_hex s)
    else if c == b'+'
    then stored (unsigned_hex s)
    else stored (unsigned_hex (c ∷ s))

-- `out[i] = Number.parseInt(slice, 16)`.
pub parse_byte : Text → ℕ
parse_byte s = signed_byte (trim_start s)

-- The loop over the slices of two code units; one that is left over is not read.
pub hex_pairs : Text → Bytes
hex_pairs [] = []
hex_pairs (a ∷ []) = []
hex_pairs (a ∷ b ∷ s) = parse_byte (a ∷ b ∷ []) ∷ hex_pairs s

abbrev pub strip_0x : Text → Text
strip_0x hex = if starts_with hex (codes "0x") then drop 2 hex else hex

-- `none` is the error "odd-length hex string".
unfoldable pub from_hex : Text → Option Bytes
unfolding hex_pairs parse_byte
from_hex hex = let h = strip_0x hex in if length h % 2 == 0 then some (hex_pairs h) else none
