-- ===== src/Ui/Number.antt =====
-- packages/web/ui/src/number.ts. The decimals of decimal.js, the formatter of `Intl` and the upper case
-- of a text are parameters.
use predictor_common.Prelude.Text.{Text, codes, text_eq}
use predictor_common.Prelude.Int.{ℤ, pos, negsuc}
use predictor_common.Prelude.{ℕ, Bool, Option, none, some, ◌++◌, if◌then◌else◌}

-- The options of `Intl.NumberFormat("en-US", …)`; `currency` is set with the style of a currency.
pub record IntlOptions : Type 0 where
  pub currency : Option Text
  pub maximum_fraction_digits : ℕ
  pub is_compact : Bool

-- `negated_log_ceil` is `log().neg().ceil()`, as an integer.
pub record Decimals : Type 1 where
  pub Decimal : Type 0
  pub div : Decimal → Decimal → Decimal
  pub negated_log_ceil : Decimal → ℤ
  pub hundredth : Decimal
  pub format : IntlOptions → Decimal → Text

pub data DecimalPlaces : Type 0 where
  optimal : DecimalPlaces
  places : ℕ → DecimalPlaces

abbrev pub or_twenty : Option ℕ → ℕ
or_twenty none = 20
or_twenty (some n) = n

abbrev pub fraction_digits : Bool → ℕ → ℕ
fraction_digits compact n = if compact then 3 else n

-- `Math.max(0, i)`.
abbrev pub at_least_zero : ℤ → ℕ
at_least_zero (pos n) = n
at_least_zero (negsuc n) = 0

module _ (decimals : Decimals) (upper : Text → Text) where
  open decimals use {Decimal, div, negated_log_ceil, hundredth, format}

  abbrev pub format_number : Decimal → Option ℕ → Bool → Text
  format_number value decimal_places compact =
      format
        (record {
          currency = none;
          maximum_fraction_digits = fraction_digits compact (or_twenty decimal_places);
          is_compact = compact;
        })
        value

  abbrev pub or_hundredth : Option Decimal → Decimal
  or_hundredth none = hundredth
  or_hundredth (some d) = d

  abbrev pub get_optimal_decimal_places : Decimal → Option Decimal → ℕ
  get_optimal_decimal_places usd_rate minimal_usd_value =
      at_least_zero (negated_log_ceil (div (or_hundredth minimal_usd_value) usd_rate))

  pub record FormatCurrencyOptions : Type 0 where
    pub decimal_places : Option DecimalPlaces
    pub minimal_usd_value : Option Decimal
    pub usd_rate : Option Decimal
    pub compact : Bool

  abbrev pub is_usd : Text → Bool
  is_usd currency = text_eq (upper currency) (codes "USD")

  abbrev pub optimal_places : Option Decimal → Option Decimal → Text → ℕ
  optimal_places none minimal_usd_value currency = if is_usd currency then 2 else 4
  optimal_places (some usd_rate) minimal_usd_value currency =
      get_optimal_decimal_places usd_rate minimal_usd_value

  abbrev pub decimal_places_of : Option DecimalPlaces → FormatCurrencyOptions → Text → ℕ
  decimal_places_of none options currency = 20
  decimal_places_of (some (places n)) options currency = n
  decimal_places_of (some optimal) options currency =
      optimal_places options.usd_rate options.minimal_usd_value currency

  unfoldable pub format_currency : Decimal → Text → FormatCurrencyOptions → Text
  format_currency value currency options =
      let decimal_places = decimal_places_of options.decimal_places options currency in
      if is_usd currency
      then format
          (record {
            currency = some currency;
            maximum_fraction_digits = fraction_digits options.compact decimal_places;
            is_compact = options.compact;
          })
          value
      else format_number value (some decimal_places) options.compact ++ (codes " " ++ currency)
