-- ===== src/Tests/DecodeEvent.antt =====
-- Runs of packages/indexer/squid-common/src/decodeEvent.ts.
use predictor_common.Prelude.Text.{Text, codes, text_eq}
use predictor_common.Prelude.Digits.{decimal}
use predictor_common.Prelude.{◌≡◌, refl, ◌||◌, none, [], ◌∷◌}
use predictor_common.Squid.DecodeEvent.{
  Decoded, payload, add_keys, insert_version, sort_versions, first_set, decode_event,
}
use predictor_common.Squid.DecodeEvent.Selection.{Takes, decode_event_cases}

-- A class with the versions 9, 10 and 31, of which the first two match.
abbrev decoded : Decoded Text
decoded = record {
  own_keys = codes "ctx" ∷ [];
  prototype_names =
      codes "isV9"
      ∷ codes "asV9"
      ∷ codes "isV31"
      ∷ codes "isV10"
      ∷ codes "asV10"
      ∷ codes "isV"
      ∷ [];
  is_true = λ name. text_eq name (codes "isV9") || text_eq name (codes "isV10");
  property = λ name. name;
}

decode_test : decode_event none decoded ≡ payload (codes "asV10")
unfolding decode_event first_set sort_versions insert_version add_keys decimal
decode_test = refl

decode_event_cases_example : Takes none decoded (decode_event none decoded)
decode_event_cases_example = decode_event_cases none decoded
