-- ===== src/Tests/Scale.antt =====
-- Runs of packages/chain/scale and packages/chain/node-manager.
use predictor_common.Prelude.Int.{pos, negsuc}
use predictor_common.Prelude.Text.{codes}
use predictor_common.Prelude.{◌+◌, ◌^◌, ◌≡◌, refl, none, some, [], ◌∷◌, ◌++◌, arith}
use predictor_common.Scale.{Bytes, compact, u64le, to_hex, from_hex}
use predictor_common.Scale.Compact.{decode_compact, decode_bytes, decode-compact}
use predictor_common.NodeManager.{
  heartbeat_context, heartbeat_signing_payload, decode-heartbeat_signing_payload,
}

compact_runs :
    (compact (pos 63) ≡ some (252 ∷ []))
    × (compact (pos 64) ≡ some (1 ∷ 1 ∷ []))
    × (compact (pos 16384) ≡ some (2 ∷ 0 ∷ 1 ∷ 0 ∷ []))
    × (compact (pos (2 ^ 30)) ≡ some (3 ∷ 0 ∷ 0 ∷ 0 ∷ 64 ∷ []))
    × (compact (negsuc 0) ≡ none)
unfolding compact
compact_runs = (refl, refl, refl, refl, refl)

hex_runs :
    (to_hex (0 ∷ 171 ∷ []) ≡ codes "0x00ab")
    × (from_hex (codes "0x00AB") ≡ some (0 ∷ 171 ∷ []))
    × (from_hex (codes "abc") ≡ none)
    × (from_hex (codes "zz1g-1") ≡ some (0 ∷ 1 ∷ 255 ∷ []))
unfolding to_hex from_hex
hex_runs = (refl, refl, refl, refl)

u64le_runs : u64le (negsuc 0) ≡ 255 ∷ 255 ∷ 255 ∷ 255 ∷ 255 ∷ 255 ∷ 255 ∷ 255 ∷ []
unfolding u64le
u64le_runs = refl

decode-compact_example :
    (bytes : Bytes) × (compact (pos 1_000_000) ≡ some bytes)
    × (decode_compact (bytes ++ 7 ∷ []) ≡ some (1_000_000, 7 ∷ []))
decode-compact_example = decode-compact 1_000_000 (7 ∷ []) (omega arith)

decode-heartbeat_signing_payload_example :
    (out : Bytes) × (heartbeat_signing_payload (pos 3) (pos 5) ≡ some out)
    × (decode_bytes out ≡ some (heartbeat_context, u64le (pos 3) ++ u64le (pos 5)))
decode-heartbeat_signing_payload_example = decode-heartbeat_signing_payload (pos 3) (pos 5)

-- Counts that agree modulo 2 ^ 64 have one payload.
same_payload :
    heartbeat_signing_payload (pos (2 ^ 64 + 3)) (pos 5) ≡ heartbeat_signing_payload (pos 3) (pos 5)
unfolding heartbeat_signing_payload u64le
same_payload = refl
