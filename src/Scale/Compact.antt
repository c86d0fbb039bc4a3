-- ===== src/Scale/Compact.antt =====
-- `compact` and `scaleBytes` of packages/chain/scale/src/index.ts against the SCALE decoder.
use predictor_common.Prelude.Int.{pos}
use predictor_common.Prelude.{
  ℕ, ◌+◌, ◌-◌, ◌*◌, ◌/◌, ◌%◌, ◌^◌, ◌<◌, ◌≤◌, ◌≡◌, refl, Option, none, some, [], ◌∷◌, ◌++◌,
  append_assoc, append-nil, length, length-append, le→ltb, take, drop, take-append, drop-append,
  ltb, ◌==◌, if◌then◌else◌, arith,
}
use predictor_common.Scale.{Bytes, le_bytes, big_compact, compact, concat_bytes, scale_bytes}
use predictor_common.Scale.Concat.{concat_bytes-eq-concat}
use predictor_common.Scale.LittleEndian.{
  le_value, le_value-le_bytes, length-le_bytes, length-le_bytes_ge,
}

-- What a SCALE decoder reads from the front of the input: the low two bits of the first byte are the
-- mode, and in mode three the other six are the count of bytes less four.
abbrev pub take_le : ℕ → Bytes → Option (ℕ × Bytes)
take_le n bytes =
    if ltb (length bytes) n then none else some (le_value (take n bytes), drop n bytes)

abbrev pub quarter : Option (ℕ × Bytes) → Option (ℕ × Bytes)
quarter none = none
quarter (some (n, rest)) = some (n / 4, rest)

abbrev pub decode_mode : ℕ → ℕ → Bytes → Option (ℕ × Bytes)
decode_mode mode b rest =
    if mode == 0
    then some (b / 4, rest)
    else if mode == 1
    then quarter (take_le 2 (b ∷ rest))
    else if mode == 2
    then quarter (take_le 4 (b ∷ rest))
    else take_le (b / 4 + 4) rest

abbrev pub decode_compact : Bytes → Option (ℕ × Bytes)
decode_compact [] = none
decode_compact (b ∷ rest) = decode_mode (b % 4) b rest

take_le-append :
    (bytes rest : Bytes) → take_le (length bytes) (bytes ++ rest) ≡ some (le_value bytes, rest)
take_le-append bytes rest = rw (
  take-append bytes rest,
  drop-append bytes rest,
  le→ltb (length (bytes ++ rest)) (length bytes) (omega (arith, length-append bytes rest)),
)

take_le-append_of_length :
    (n : ℕ) (bytes rest : Bytes)
    → n ≡ length bytes
    → take_le n (bytes ++ rest) ≡ some (le_value bytes, rest)
take_le-append_of_length n bytes rest e = rw e (take_le-append bytes rest)

-- The first byte of the big mode gives back the mode and the count.
big_prefix :
    (n : ℕ)
    → 4 ≤ n
    → n ≤ 67
    → (((n - 4) * 4 + 3) % 256 % 4 ≡ 3) × (((n - 4) * 4 + 3) % 256 / 4 + 4 ≡ n)
big_prefix n low high = (omega arith, omega arith)

decode_mode_three : (b : ℕ) (rest : Bytes) → decode_mode 3 b rest ≡ take_le (b / 4 + 4) rest
decode_mode_three b rest = refl

decode_big :
    (v : ℕ) (rest : Bytes)
    → 2 ^ 30 ≤ v
    → v < 2 ^ 536
    → decode_compact (big_compact v ++ rest) ≡ some (v, rest)
unfolding big_compact
decode_big v rest large fits =
    let bytes = le_bytes v v in
    let low : 4 ≤ length bytes = length-le_bytes_ge v v (omega arith) (omega arith) in
    let high : length bytes ≤ 67 = length-le_bytes 67 v v (omega arith) in
    let (mode, count) = big_prefix (length bytes) low high in
    rw (mode, take_le-append_of_length _ bytes rest count, le_value-le_bytes v v (omega arith))

-- Below 2 ^ 536, which is what the length prefix of the big mode can count, a SCALE decoder reads
-- back the number that `compact` was given, and leaves what follows.
pub decode-compact :
    (v : ℕ) (rest : Bytes)
    → v < 2 ^ 536
    → (bytes : Bytes) × (compact (pos v) ≡ some bytes)
      × (decode_compact (bytes ++ rest) ≡ some (v, rest))
unfolding compact
decode-compact v rest fits = (_, refl, ground (arith, decode_big v rest))

-- What a SCALE decoder reads as `Vec<u8>`: the compact length, then that many bytes.
abbrev pub split_bytes : Option (ℕ × Bytes) → Option (Bytes × Bytes)
split_bytes none = none
split_bytes (some (n, rest)) = if ltb (length rest) n then none else some (take n rest, drop n rest)

abbrev pub decode_bytes : Bytes → Option (Bytes × Bytes)
decode_bytes input = split_bytes (decode_compact input)

-- `scaleBytes` of a byte string shorter than 2 ^ 536 is read back as that string, and what follows
-- is left.
pub decode-scale_bytes :
    (bytes rest : Bytes)
    → length bytes < 2 ^ 536
    → (out : Bytes) × (scale_bytes bytes ≡ some out)
      × (decode_bytes (out ++ rest) ≡ some (bytes, rest))
unfolding scale_bytes
decode-scale_bytes bytes rest fits =
    let (prefix, made, read) = decode-compact (length bytes) (bytes ++ rest) fits in
    (
      concat_bytes (prefix ∷ bytes ∷ []),
      rw (made, scale_bytes),
      rw
          (
            concat_bytes-eq-concat (prefix ∷ bytes ∷ []),
            append-nil bytes,
            append_assoc prefix bytes rest,
            read,
          )
          (rw (
            take-append bytes rest,
            drop-append bytes rest,
            le→ltb (length (bytes ++ rest)) (length bytes)
                (omega (arith, length-append bytes rest)),
          )),
    )
