-- ===== src/NodeManager.antt =====
-- packages/chain/node-manager/src/index.ts: the heartbeat payload that the node-manager pallet
-- verifies. `utf8` of the ASCII context is its code units.
use predictor_common.Prelude.Int.{ℤ}
use predictor_common.Prelude.Text.{codes}
use predictor_common.Prelude.{
  ◌≡◌, sym, ap, ◌∙◌, Option, none, some, [], ◌∷◌, ◌++◌, append-nil, length, take, drop, take-append,
  drop-append, arith,
}
use predictor_common.Scale.{Bytes, concat_bytes, scale_bytes, as_uint64, u64le}
use predictor_common.Scale.Concat.{concat_bytes-eq-concat}
use predictor_common.Scale.Compact.{decode_bytes, decode-scale_bytes}
use predictor_common.Scale.LittleEndian.{le_value, u64le_lem}

abbrev pub heartbeat_context : Bytes
heartbeat_context = codes "NodeManager_heartbeat"

unfoldable pub heartbeat_signing_payload : ℤ → ℤ → Option Bytes
heartbeat_signing_payload count period = elim (scale_bytes heartbeat_context) [
  | none ↦ none
  | some context ↦ some (concat_bytes (context ∷ u64le count ∷ u64le period ∷ []))
]

-- The payload exists, a SCALE decoder reads the context from its front, and what follows are the
-- sixteen bytes of the two counters, the count before the period.
pub decode-heartbeat_signing_payload :
    (count period : ℤ)
    → (out : Bytes) × (heartbeat_signing_payload count period ≡ some out)
      × (decode_bytes out ≡ some (heartbeat_context, u64le count ++ u64le period))
unfolding heartbeat_signing_payload
decode-heartbeat_signing_payload count period =
    let (context, made, read) =
      decode-scale_bytes heartbeat_context (u64le count ++ u64le period) (omega arith) in
    (
      concat_bytes (context ∷ u64le count ∷ u64le period ∷ []),
      rw (made, heartbeat_signing_payload),
      rw
          (
            concat_bytes-eq-concat (context ∷ u64le count ∷ u64le period ∷ []),
            append-nil (u64le period),
          )
          read,
    )

module _ (a b c d : ℤ) (same : heartbeat_signing_payload a b ≡ heartbeat_signing_payload c d) where
  counters : u64le a ++ u64le b ≡ u64le c ++ u64le d
  counters =
      let (out, made, read) = decode-heartbeat_signing_payload a b in
      let (out', made', read') = decode-heartbeat_signing_payload c d in
      let e : out ≡ out' = cc in
      let e' : ◌≡◌ {A = Option (Bytes × Bytes)} (some (heartbeat_context, u64le a ++ u64le b))
          (some (heartbeat_context, u64le c ++ u64le d)) =
        sym read ∙ ap decode_bytes e ∙ read' in
      ap (λ (o : Option (Bytes × Bytes)). elim o [ none ↦ [] | some p ↦ p.1 ]) e'

  count_bytes : u64le a ≡ u64le c
  count_bytes =
      sym (take-append (u64le a) (u64le b))
      ∙ ap (take (length (u64le a))) counters
      ∙ ap (λ n. take n (u64le c ++ u64le d)) ((u64le_lem a).0 ∙ sym (u64le_lem c).0)
      ∙ take-append (u64le c) (u64le d)

  period_bytes : u64le b ≡ u64le d
  period_bytes =
      sym (drop-append (u64le a) (u64le b))
      ∙ ap (drop (length (u64le a))) counters
      ∙ ap (λ n. drop n (u64le c ++ u64le d)) ((u64le_lem a).0 ∙ sym (u64le_lem c).0)
      ∙ drop-append (u64le c) (u64le d)

-- Two heartbeats with the same payload have the same count and the same period, as 64-bit numbers:
-- no other pair of counters has this signature, the swapped pair included.
pub heartbeat_signing_payload_injective :
    (a b c d : ℤ)
    → heartbeat_signing_payload a b ≡ heartbeat_signing_payload c d
    → (as_uint64 a ≡ as_uint64 c) × (as_uint64 b ≡ as_uint64 d)
heartbeat_signing_payload_injective a b c d same = (
  sym (u64le_lem a).2 ∙ ap le_value (count_bytes a b c d same) ∙ (u64le_lem c).2,
  sym (u64le_lem b).2 ∙ ap le_value (period_bytes a b c d same) ∙ (u64le_lem d).2,
)
