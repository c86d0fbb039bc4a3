-- ===== src/Tests/Json.antt =====
-- Runs of packages/indexer/squid-common/src/json.ts.
use predictor_common.Prelude.Text.{codes}
use predictor_common.Prelude.{◌≡◌, refl}
use predictor_common.Squid.Json.{
  Members, scalar, big_int, text_value, compound, no_more, member, too_large, non_serializable,
  stringify, truncate_json_payload,
}
use predictor_common.Squid.Json.Order.{entries}
use predictor_common.Squid.Json.Budget.{Verdict, truncate_json_payload_cases}

-- `["abcdef", 1, 2n]`.
abbrev members : Members
members = member (text_value (codes "abcdef")) (member scalar (member big_int no_more))

too_large_test : truncate_json_payload (compound members) 20 ≡ too_large 20
unfolding truncate_json_payload stringify
too_large_test = refl

big_int_test : truncate_json_payload (compound members) 36 ≡ non_serializable
unfolding truncate_json_payload stringify
big_int_test = refl

-- The estimate exceeds the budget at the value that could not be written.
late_test : truncate_json_payload (compound members) 35 ≡ too_large 35
unfolding truncate_json_payload stringify
late_test = refl

truncate_json_payload_cases_example :
    Verdict
      (compound members)
      30
      (entries (compound members))
      (truncate_json_payload (compound members) 30)
truncate_json_payload_cases_example = truncate_json_payload_cases members 30
