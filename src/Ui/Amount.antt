-- ===== src/Ui/Amount.antt =====
-- packages/web/ui/src/amount.ts: token amounts as decimal text and as base units. A `decimals` that is
-- no integer is `none`.
pub mod Parsing
pub mod Formatting
use predictor_common.Prelude.Text.{Text, codes, trim, pad_start}
use predictor_common.Prelude.Digits.{decimal, value, is_digit}
use predictor_common.Prelude.Int.{ℤ, pos, negsuc, is_negative, nat_abs}
use predictor_common.Prelude.{
  ℕ, zero, suc, ◌+◌, ◌-◌, ◌*◌, ◌/◌, ◌%◌, ◌^◌, Bool, true, false, not, ◌&&◌, ◌==◌, Option, none,
  some, List, [], ◌∷◌, ◌++◌, length, replicate, leb, ltb, if◌then◌else◌,
}

pub data ParseTokenAmountError : Type 0 where
  empty not_a_number not_positive invalid_decimals : ParseTokenAmountError
  too_many_fractional_digits : (decimals : ℕ) → ParseTokenAmountError
  exceeds_max : (max : ℤ) → ParseTokenAmountError

pub data ParseTokenAmountResult : Type 0 where
  ok : (amount : ℕ) → ParseTokenAmountResult
  failed : ParseTokenAmountError → ParseTokenAmountResult

abbrev pub max_u128 : ℤ
max_u128 = pos (2 ^ 128 - 1)

-- The decimals that pass the first test.
abbrev pub valid_decimals : Option ℤ → Option ℕ
valid_decimals none = none
valid_decimals (some (negsuc n)) = none
valid_decimals (some (pos d)) = if leb d 255 then some d else none

-- The digits that a text begins with, and the rest.
unfoldable pub span_digits : Text → Text × Text
span_digits [] = ([], [])
span_digits (c ∷ s) =
    let (digits, rest) = span_digits s in if is_digit c then (c ∷ digits, rest) else ([], c ∷ s)

-- The groups of `/^(\d+)(?:\.(\d+))?$/`, the second one empty where it does not take part.
abbrev pub match_fraction : Text → Text × Text → Option (Text × Text)
match_fraction whole ([], rest) = none
match_fraction whole (c ∷ digits, []) = some (whole, c ∷ digits)
match_fraction whole (c ∷ digits, d ∷ rest) = none

abbrev pub match_whole : Text × Text → Option (Text × Text)
match_whole ([], rest) = none
match_whole (c ∷ digits, []) = some (c ∷ digits, [])
match_whole (c ∷ digits, d ∷ rest) =
    if d == b'.' then match_fraction (c ∷ digits) (span_digits rest) else none

unfoldable pub match_number : Text → Option (Text × Text)
match_number s = match_whole (span_digits s)

abbrev pub pad_end : Text → ℕ → ℕ → Text
pad_end s n c = s ++ replicate (n - length s) c

abbrev pub exceeds : ℕ → ℤ → Bool
exceeds amount (pos max) = ltb max amount
exceeds amount (negsuc n) = true

-- `BigInt(wholePart) * base + fraction`.
abbrev pub amount_of : ℕ → Text → Text → ℕ
amount_of decimals whole [] = value whole * 10 ^ decimals
amount_of decimals whole (c ∷ fraction) =
    value whole * 10 ^ decimals + value (pad_end (c ∷ fraction) decimals b'0')

abbrev pub within : ℤ → ℕ → ParseTokenAmountResult
within max amount =
    if amount == 0
    then failed not_positive
    else if exceeds amount max
    then failed (exceeds_max max)
    else ok amount

abbrev pub of_groups : ℕ → ℤ → Option (Text × Text) → ParseTokenAmountResult
of_groups decimals max none = failed not_a_number
of_groups decimals max (some (whole, fraction)) =
    if ltb decimals (length fraction)
    then failed (too_many_fractional_digits decimals)
    else within max (amount_of decimals whole fraction)

abbrev pub of_text : ℕ → ℤ → Text → ParseTokenAmountResult
of_text decimals max [] = failed empty
of_text decimals max (c ∷ s) = of_groups decimals max (match_number (c ∷ s))

abbrev pub of_decimals : ℤ → Text → Option ℕ → ParseTokenAmountResult
of_decimals max input none = failed invalid_decimals
of_decimals max input (some decimals) = of_text decimals max (trim input)

unfoldable pub parse_token_amount : Text → Option ℤ → ℤ → ParseTokenAmountResult
parse_token_amount input decimals max = of_decimals max input (valid_decimals decimals)

unfoldable pub parse_token_amount_error_message : ParseTokenAmountError → Text
parse_token_amount_error_message empty = codes "Enter an amount."
parse_token_amount_error_message not_a_number = codes "Enter a valid number."
parse_token_amount_error_message not_positive = codes "Enter an amount greater than zero."
parse_token_amount_error_message invalid_decimals =
    codes "Token decimals must be a whole number between 0 and 255."
parse_token_amount_error_message (too_many_fractional_digits decimals) =
    codes "Enter at most " ++ decimal decimals ++ codes " decimal places."
parse_token_amount_error_message (exceeds_max max) = codes "Amount is too large."

-- `replace(/0+$/, "")`.
abbrev pub cons_digit : ℕ → Text → Text
cons_digit c [] = if c == b'0' then [] else c ∷ []
cons_digit c (d ∷ s) = c ∷ d ∷ s

unfoldable pub trim_zeros : Text → Text
trim_zeros [] = []
trim_zeros (c ∷ s) = cons_digit c (trim_zeros s)

-- A comma goes where the digits left are a positive multiple of three and one precedes them.
abbrev pub separated : ℕ → Text → Text → Text
separated c [] grouped = c ∷ []
separated c (d ∷ s) grouped = if length (d ∷ s) % 3 == 0 then c ∷ b',' ∷ grouped else c ∷ grouped

unfoldable pub add_thousands_separators : Text → Text
add_thousands_separators [] = []
add_thousands_separators (c ∷ s) = separated c s (add_thousands_separators s)

abbrev pub fraction_str : ℕ → ℕ → Text
fraction_str decimals fraction =
    if ltb 0 decimals then trim_zeros (pad_start (decimal fraction) decimals b'0') else []

abbrev pub with_fraction : Text → Text → Text
with_fraction whole [] = whole
with_fraction whole (c ∷ fraction) = whole ++ (b'.' ∷ c ∷ fraction)

abbrev pub with_symbol : Text → Option Text → Text
with_symbol number none = number
with_symbol number (some []) = number
with_symbol number (some (c ∷ symbol)) = number ++ (b' ' ∷ c ∷ symbol)

-- Of a `bigint`, with decimals that are not negative.
unfoldable pub format_token_amount : ℤ → ℕ → Option Text → Text
unfolding trim_zeros
format_token_amount raw decimals symbol =
    let abs = nat_abs raw in
    let base = 10 ^ decimals in
    let sign = if is_negative raw then b'-' ∷ [] else [] in
    with_symbol
      (with_fraction (sign ++ add_thousands_separators (decimal (abs / base)))
        (fraction_str decimals (abs % base)))
      symbol
