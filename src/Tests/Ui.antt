-- ===== src/Tests/Ui.antt =====
-- Runs of packages/web/ui.
use predictor_common.Prelude.Text.{Text, codes, trim}
use predictor_common.Prelude.Digits.{decimal}
use predictor_common.Prelude.Int.{pos, negsuc}
use predictor_common.Prelude.{
  ℕ, ◌+◌, ◌-◌, ◌≤◌, ◌<◌, ◌⊎◌, ◌≡◌, ◌↔◌, refl, none, some, length, drop, arith,
}
use predictor_common.Ui.Truncate.{
  TruncateMiddleOptions, truncate_middle, kept, ends, truncate_middle-length,
}
use predictor_common.Ui.Duration.{
  format_duration, counted, IsNearest, ms_per_hour, ms_per_minute, format_duration-IsNearest,
}
use predictor_common.Ui.Amount.{
  ok, failed, too_many_fractional_digits, not_a_number, match_number, span_digits,
  parse_token_amount, max_u128, add_thousands_separators, trim_zeros, format_token_amount,
}
use predictor_common.Ui.Amount.Formatting.{remove_commas, parse_token_amount-format_token_amount}
use predictor_common.Ui.Amount.Parsing.{Amounts, parse_token_amount_iff}

amount_test : parse_token_amount (codes " 12.5 ") (some (pos 3)) max_u128 ≡ ok 12500
unfolding parse_token_amount match_number span_digits
amount_test = refl

fraction_test :
    parse_token_amount (codes "1.25") (some (pos 1)) max_u128
    ≡ failed (too_many_fractional_digits 1)
unfolding parse_token_amount match_number span_digits
fraction_test = refl

point_test : parse_token_amount (codes "1.") (some (pos 1)) max_u128 ≡ failed not_a_number
unfolding parse_token_amount match_number span_digits
point_test = refl

parse_token_amount_iff_example :
    (parse_token_amount (codes "12.5") (some (pos 3)) max_u128 ≡ ok 12500) ↔ (
      (d : ℕ) × (some (pos 3) ≡ some (pos d))
      × (d ≤ 255)
      × Amounts d max_u128 (trim (codes "12.5")) 12500)
parse_token_amount_iff_example = parse_token_amount_iff (codes "12.5") (some (pos 3)) max_u128 12500

format_test :
    format_token_amount (negsuc 123456049999) 5 (some (codes "PRD")) ≡ codes "-1,234,560.5 PRD"
unfolding format_token_amount add_thousands_separators trim_zeros decimal
format_test = refl

parse_token_amount-format_token_amount_example :
    parse_token_amount
      (remove_commas (format_token_amount (pos 1234500) 3 none))
      (some (pos 3))
      max_u128
    ≡ ok 1234500
parse_token_amount-format_token_amount_example =
    parse_token_amount-format_token_amount 1234500 3 max_u128 (omega arith) (omega arith)
      (omega arith)

abbrev account_hash : Text
account_hash = codes "0x8eaf04151687736326c9fea17e25fc52"

abbrev no_tail : TruncateMiddleOptions
no_tail = record { head = 4; tail = 0; ellipsis = codes ".." }

truncate_test :
    truncate_middle (record { head = 4; tail = 3; ellipsis = codes ".." }) (some account_hash)
    ≡ some (codes "0x8e..c52")
unfolding truncate_middle
truncate_test = refl

no_tail_test :
    truncate_middle no_tail (some account_hash)
    ≡ some (codes "0x8e..0x8eaf04151687736326c9fea17e25fc52")
unfolding truncate_middle
no_tail_test = refl

truncate_middle-length_example :
    (result : Text) × (truncate_middle no_tail (some account_hash) ≡ some result)
    × (((length account_hash ≤ kept no_tail account_hash) × (result ≡ account_hash))
        ⊎ ((kept no_tail account_hash < length account_hash)
            × (((0 < 0)
                  × (result
                      ≡ ends no_tail account_hash (drop (length account_hash - 0) account_hash))
                  × (length result ≡ kept no_tail account_hash))
                ⊎ ((◌≡◌ {A = ℕ} 0 0)
                    × (result ≡ ends no_tail account_hash account_hash)
                    × (length result ≡ kept no_tail account_hash + length account_hash)))))
truncate_middle-length_example = truncate_middle-length no_tail account_hash

-- Three quarters of an hour.
duration_test : format_duration 2700000 ≡ codes "1 hour"
unfolding format_duration decimal
duration_test = refl

format_duration-IsNearest_example :
    ((n : ℕ) × (format_duration 2700000 ≡ counted n (codes "hour"))
      × (1800000 ≤ 2700000)
      × (1 ≤ n)
      × IsNearest 2700000 ms_per_hour n)
    ⊎ ((n : ℕ) × (format_duration 2700000 ≡ counted n (codes "minute"))
        × (2700000 < 1800000)
        × (1 ≤ n)
        × (IsNearest 2700000 ms_per_minute n ⊎ ((n ≡ 1) × (2700000 < 30000))))
format_duration-IsNearest_example = format_duration-IsNearest 2700000
