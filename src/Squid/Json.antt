-- ===== src/Squid/Json.antt =====
-- `truncateJsonPayload` of packages/indexer/squid-common/src/json.ts. A value is the tree that
-- `JSON.stringify` goes through, after `toJSON`; an object that lies on its own path is `cycle`.
pub mod Order
pub mod Budget
pub mod Serialize
use predictor_common.Prelude.Text.{Text}
use predictor_common.Prelude.{
  ℕ, ◌+◌, Bool, true, false, Option, none, some, length, ltb, if◌then◌else◌,
}

mutual
  -- `scalar` is a number, a Boolean, `null` or `undefined`.
  pub data Json : Type 0 where
    scalar big_int cycle : Json
    text_value : Text → Json
    compound : Members → Json

  -- The members of an object or an array.
  pub data Members : Type 0 where
    no_more : Members
    member : Json → Members → Members

pub data TruncatedJson : Type 0 where
  ok : Json → TruncatedJson
  too_large : ℕ → TruncatedJson
  non_serializable : TruncatedJson

-- What the closure of the replacer keeps.
pub record Tally : Type 0 where
  pub accumulated : ℕ
  pub over_limit : Bool

abbrev pub cost : Json → ℕ
cost scalar = 10
cost big_int = 10
cost cycle = 10
cost (text_value s) = length s
cost (compound members) = 10

module _ (byte_budget : ℕ) where
  -- The replacer is called with the next value.
  abbrev pub replacer : ℕ → Tally → Tally
  replacer size tally = if tally.over_limit then tally else record {
    accumulated = tally.accumulated + size;
    over_limit = ltb byte_budget (tally.accumulated + size);
  }

  abbrev pub and_then : Option Tally → (Tally → Option Tally) → Option Tally
  and_then none next = none
  and_then (some tally) next = next tally

  unfoldable mutual
    -- `JSON.stringify` with the replacer, where `none` is an exception. A value that the replacer
    -- leaves out is not gone into.
    pub stringify : Json → Tally → Option Tally
    stringify scalar tally = some (replacer (cost scalar) tally)
    stringify (text_value s) tally = some (replacer (length s) tally)
    stringify big_int tally =
        let t = replacer (cost big_int) tally in if t.over_limit then some t else none
    stringify cycle tally =
        let t = replacer (cost cycle) tally in if t.over_limit then some t else none
    stringify (compound members) tally =
        let t = replacer 10 tally in
        let rest = stringify_members members t in if t.over_limit then some t else rest

    pub stringify_members : Members → Tally → Option Tally
    stringify_members no_more tally = some tally
    stringify_members (member v members) tally =
        and_then (stringify v tally) (λ t. stringify_members members t)

abbrev pub verdict : Json → ℕ → Option Tally → TruncatedJson
verdict v byte_budget none = non_serializable
verdict v byte_budget (some tally) = if tally.over_limit then too_large byte_budget else ok v

unfoldable pub truncate_json_payload : Json → ℕ → TruncatedJson
truncate_json_payload scalar byte_budget = ok scalar
truncate_json_payload big_int byte_budget = ok big_int
truncate_json_payload (text_value s) byte_budget = ok (text_value s)
truncate_json_payload v byte_budget =
    verdict v byte_budget (stringify byte_budget v (record { accumulated = 0; over_limit = false }))
