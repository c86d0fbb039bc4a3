-- ===== src/Squid/Bytes/Storable.antt =====
-- That what packages/indexer/squid-common/src/bytes.ts decodes can be stored as text, and what its
-- hexadecimal form reads back as.
use predictor_common.Prelude.Text.{Text}
use predictor_common.Scale.{Bytes, to_hex, hex_bytes}
use predictor_common.Scale.LittleEndian.{IsByte}
use predictor_common.Scale.Hex.{IsHexDigit, hex_bytes-IsHexDigit, hex_pairs-hex_bytes}
use predictor_common.Prelude.{
  ◌≡◌, ◌≢◌, inl, inr, false, Bool-cases, Option, none, some, [], ◌∷◌, any, All, arith,
}
use predictor_common.Squid.Bytes.{
  encode_opaque_bytes_as_hex, hex_to_bytes, is_nul, text_or_hex, without_nuls,
  decode_metadata_bytes,
}

-- No NUL, which Postgres cannot store.
abbrev pub Storable : Text → Type 0
Storable s = All (λ c. c ≢ 0) s

hex_Storable : (s : Text) → All IsHexDigit s → Storable s
hex_Storable [] h = tt
hex_Storable (c ∷ s) (h, hs) = (ground (arith, h), hex_Storable s hs)

encode-Storable : (bytes : Bytes) → All IsByte bytes → Storable (encode_opaque_bytes_as_hex bytes)
unfolding encode_opaque_bytes_as_hex to_hex
encode-Storable bytes h =
    (omega arith, (omega arith, hex_Storable (hex_bytes bytes) (hex_bytes-IsHexDigit bytes h)))

no_nul-Storable : (s : Text) → any is_nul s ≡ false → Storable s
no_nul-Storable [] h = tt
no_nul-Storable (c ∷ s) h =
    let here : is_nul c ≡ false = ground (arith, h) in
    let later : any is_nul s ≡ false = ground (arith, h) in
    (ground (arith, here), no_nul-Storable s later)

without_nuls-Storable : (s : Text) → Storable (without_nuls s)
without_nuls-Storable [] = tt
without_nuls-Storable (c ∷ s) = elim (Bool-cases (is_nul c)) [
  | inl nul ↦ rw nul (without_nuls-Storable s)
  | inr other ↦ rw other (ground (arith, other), without_nuls-Storable s)
]

text_or_hex-Storable :
    (bytes : Bytes) (o : Option Text) → All IsByte bytes → Storable (text_or_hex bytes o)
text_or_hex-Storable bytes none h = encode-Storable bytes h
text_or_hex-Storable bytes (some s) h = elim (Bool-cases (any is_nul s)) [
  | inl nul ↦ rw nul (encode-Storable bytes h)
  | inr other ↦ rw other (no_nul-Storable s other)
]

-- Whatever the decoder makes of the bytes, the text of a metadata field can be stored.
pub decode_metadata_bytes-Storable :
    (utf8_fatal : Bytes → Option Text) (utf8_lossy : Bytes → Text) (bytes : Bytes)
    → All IsByte bytes
    → Storable (decode_metadata_bytes utf8_fatal utf8_lossy bytes)
unfolding decode_metadata_bytes
decode_metadata_bytes-Storable utf8_fatal utf8_lossy [] h = tt
decode_metadata_bytes-Storable utf8_fatal utf8_lossy (b ∷ bytes) h =
    text_or_hex-Storable (b ∷ bytes) (utf8_fatal (b ∷ bytes)) h

-- Bytes are read back from their hexadecimal form.
pub hex_to_bytes-encode :
    (bytes : Bytes) → All IsByte bytes → hex_to_bytes (encode_opaque_bytes_as_hex bytes) ≡ bytes
unfolding hex_to_bytes encode_opaque_bytes_as_hex to_hex
hex_to_bytes-encode bytes h = hex_pairs-hex_bytes bytes h
