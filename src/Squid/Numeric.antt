-- ===== src/Squid/Numeric.antt =====
-- packages/indexer/squid-common/src/numeric.ts: sums of numeric texts. The decimals of
-- @subsquid/big-decimal are a parameter; `none` is a call that throws.
pub mod Sums
use predictor_common.Prelude.Text.{Text}
use predictor_common.Prelude.{
  ◌≡◌, Bool, true, false, Option, none, some, List, [], ◌∷◌, if◌then◌else◌,
}

-- Exact decimals. `add` and `zero` form a monoid, and a decimal's text reads as the decimal.
pub record BigDecimals : Type 1 where
  pub BigDecimal : Type 0
  pub parse : Text → Option BigDecimal
  pub zero : BigDecimal
  pub add : BigDecimal → BigDecimal → BigDecimal
  pub sub : BigDecimal → BigDecimal → BigDecimal
  pub div : BigDecimal → BigDecimal → Option BigDecimal
  pub gt : BigDecimal → BigDecimal → Bool
  pub to_text : BigDecimal → Text
  pub add-zero : (a : BigDecimal) → add a zero ≡ a
  pub zero-add : (a : BigDecimal) → add zero a ≡ a
  pub add_assoc : (a b c : BigDecimal) → add (add a b) c ≡ add a (add b c)
  pub parse-to_text : (a : BigDecimal) → parse (to_text a) ≡ some a

infixl 5 ◌>>=◌
abbrev pub ◌>>=◌ {ℓ κ} : {A : Type ℓ} {B : Type κ} → Option A → (A → Option B) → Option B
none >>= f = none
some a >>= f = f a

module _ (decimals : BigDecimals) where
  open decimals use {BigDecimal, parse, zero, add, sub, div, gt, to_text}

  abbrev pub shown : Bool → BigDecimal → Option Text
  shown has_value acc = if has_value then some (to_text acc) else none

  -- The loop of `sumStrings`, from its two variables.
  unfoldable pub sum_from : Bool → BigDecimal → List (Option Text) → Option (Option Text)
  sum_from has_value acc [] = some (shown has_value acc)
  sum_from has_value acc (none ∷ values) = sum_from has_value acc values
  sum_from has_value acc (some v ∷ values) = do d ← parse v; sum_from true (add acc d) values

  unfoldable pub sum_strings : List (Option Text) → Option (Option Text)
  unfolding sum_from
  sum_strings values = sum_from false zero values

  unfoldable pub add_strings : Text → Text → Option Text
  add_strings a b = do x ← parse a; y ← parse b; some (to_text (add x y))

  unfoldable pub sub_strings : Text → Text → Option Text
  sub_strings a b = do x ← parse a; y ← parse b; some (to_text (sub x y))

  unfoldable pub div_strings : Text → Text → Option Text
  div_strings a b = do x ← parse a; y ← parse b; z ← div x y; some (to_text z)

  unfoldable pub gt_zero : Text → Option Bool
  gt_zero value = do x ← parse value; some (gt x zero)

  pub record NumericAccumulator : Type 0 where
    pub value : BigDecimal
    pub has_data : Bool

  abbrev pub new_accumulator : NumericAccumulator
  new_accumulator = record { value = zero; has_data = false }

  unfoldable pub accumulate : NumericAccumulator → Option Text → Option NumericAccumulator
  accumulate a none = some a
  accumulate a (some s) = do d ← parse s; some (record { value = add a.value d; has_data = true })

  unfoldable pub to_string : NumericAccumulator → Text
  to_string a = to_text a.value

  unfoldable pub to_string_or_null : NumericAccumulator → Option Text
  to_string_or_null a = if a.has_data then some (to_text a.value) else none

  -- Calls of `add` one after the other.
  unfoldable pub accumulate_all :
      NumericAccumulator → List (Option Text) → Option NumericAccumulator
  unfolding accumulate
  accumulate_all a [] = some a
  accumulate_all a (s ∷ rest) = do b ← accumulate a s; accumulate_all b rest
