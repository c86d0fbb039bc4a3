-- ===== src/Tests/Bytes.antt =====
-- Runs of packages/indexer/squid-common/src/bytes.ts, with a decoder that takes each byte for a code unit.
use predictor_common.Prelude.Text.{Text, codes}
use predictor_common.Scale.{Bytes, to_hex}
use predictor_common.Prelude.{◌≡◌, refl, Option, none, some, [], ◌∷◌}
use predictor_common.Squid.Bytes.{
  string, encode_opaque_bytes_as_hex, decode_metadata_bytes, decode_substrate_data,
  parse_chain_error_field,
}

abbrev fatal : Bytes → Option Text
fatal bytes = some bytes

abbrev lossy : Bytes → Text
lossy bytes = bytes

nul_test : decode_metadata_bytes fatal lossy (65 ∷ 0 ∷ []) ≡ codes "0x4100"
unfolding decode_metadata_bytes encode_opaque_bytes_as_hex to_hex
nul_test = refl

padded_test :
    decode_substrate_data fatal lossy
      (record { kind = codes "Raw4"; content = some (65 ∷ 66 ∷ 0 ∷ 0 ∷ []) })
    ≡ some (codes "AB")
unfolding decode_substrate_data
padded_test = refl

leak_test : parse_chain_error_field (λ s. some s) (string b'[' (codes "object Object]")) ≡ none
unfolding parse_chain_error_field
leak_test = refl
