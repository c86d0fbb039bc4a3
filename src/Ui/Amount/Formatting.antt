-- ===== src/Ui/Amount/Formatting.antt =====
-- `formatTokenAmount` of packages/web/ui/src/amount.ts against `parseTokenAmount`.
use native.Mathlib.Nat.{pow-zero, div-add-mod', mod-lt, one-le-pow}
use mathlib.Core.Path.{subst}
use predictor_common.Prelude.Text.{Text, trim, is_space, pad_start}
use predictor_common.Prelude.Trim.{IsSolid, trim-IsSolid}
use predictor_common.Prelude.Digits.{
  decimal, length-decimal, decimal-IsDigit, decimal-ne-nil, value, value_from, value-decimal,
  value_from-append, IsDigit,
}
use predictor_common.Prelude.Int.{ℤ, pos}
use predictor_common.Prelude.{
  ℕ, zero, suc, ◌+◌, ◌-◌, ◌*◌, ◌/◌, ◌%◌, ◌^◌, ◌≤◌, ◌<◌, ◌≡◌, ◌≢◌, inl, inr, refl, sym, ap, ◌∙◌,
  true, false, ◌==◌, none, some, [], ◌∷◌, ◌++◌, ==_iff, length, length-append, length-replicate,
  replicate, All, All-append, All-append_left, Bool-cases, ltb, lt→ltb, arith, if◌then◌else◌,
}
use predictor_common.Ui.Amount.{
  ok, cons_digit, trim_zeros, separated, add_thousands_separators, fraction_str, with_fraction,
  format_token_amount, parse_token_amount,
}
use predictor_common.Ui.Amount.Parsing.{
  Reads, AtMost, Amounts, value_from-replicate, parse_token_amount_iff,
}

-- The zeros that are cut off.
trim_zeros-zeros : (s : Text) → (k : ℕ) × (s ≡ trim_zeros s ++ replicate k b'0')
unfolding trim_zeros
trim_zeros-zeros [] = (0, refl)
trim_zeros-zeros (c ∷ s) =
    let (k, e) = trim_zeros-zeros s in cons_digit-zeros c s (trim_zeros s) k e
  where
    cons_digit-zeros :
        (c : ℕ) (s t : Text) (k : ℕ)
        → s ≡ t ++ replicate k b'0'
        → (j : ℕ) × (c ∷ s ≡ cons_digit c t ++ replicate j b'0')
    cons_digit-zeros c s (d ∷ t) k e = (k, ap (λ l. c ∷ l) e)
    cons_digit-zeros c s [] k e = elim (Bool-cases (c == b'0')) [
      | inl nought ↦ (suc k, rw nought (λ i. (==_iff c b'0').0 nought i ∷ e i))
      | inr other ↦ (k, rw other (ap (λ l. c ∷ l) e))
    ]

-- A commas' grouping undone.
abbrev pub remove_commas : Text → Text
remove_commas [] = []
remove_commas (c ∷ s) = if c == b',' then remove_commas s else c ∷ remove_commas s

remove_commas-digits : (s : Text) → All IsDigit s → remove_commas s ≡ s
remove_commas-digits [] h = refl
remove_commas-digits (c ∷ s) (h, hs) =
    let other : (c == b',') ≡ false = ground (arith, h) in
    rw (other, remove_commas-digits s hs) refl

remove_commas-append : (s t : Text) → remove_commas (s ++ t) ≡ remove_commas s ++ remove_commas t
remove_commas-append [] t = refl
remove_commas-append (c ∷ s) t = elim (Bool-cases (c == b',')) [
  | inl comma ↦ rw comma (remove_commas-append s t)
  | inr other ↦ rw other (ap (λ l. c ∷ l) (remove_commas-append s t))
]

remove_commas-separated :
    (c : ℕ) (s grouped : Text)
    → IsDigit c
    → remove_commas grouped ≡ s
    → remove_commas (separated c s grouped) ≡ c ∷ s
remove_commas-separated c [] grouped h e =
    let other : (c == b',') ≡ false = ground (arith, h) in rw other refl
remove_commas-separated c (d ∷ s) grouped h e =
    let other : (c == b',') ≡ false = ground (arith, h) in
    elim (Bool-cases (length (d ∷ s) % 3 == 0)) [
      | inl comma ↦ rw (comma, other) (ap (λ l. c ∷ l) e)
      | inr no_comma ↦ rw (no_comma, other) (ap (λ l. c ∷ l) e)
    ]

remove_commas-add_thousands_separators :
    (s : Text) → All IsDigit s → remove_commas (add_thousands_separators s) ≡ s
unfolding add_thousands_separators
remove_commas-add_thousands_separators [] h = refl
remove_commas-add_thousands_separators (c ∷ s) (h, hs) =
    remove_commas-separated c s (add_thousands_separators s) h
      (remove_commas-add_thousands_separators s hs)

digit_IsSolid : (s : Text) → All IsDigit s → IsSolid s
digit_IsSolid [] h = tt
digit_IsSolid (c ∷ s) (h, hs) = (ground (arith, h), digit_IsSolid s hs)

-- The fraction: its digits, at most as many as the decimals, and the number they stand for.
abbrev Fraction : ℕ → ℕ → Text → Type 0
Fraction decimals f s =
    All IsDigit s × (length s ≤ decimals) × (value s * 10 ^ (decimals - length s) ≡ f)

Fraction-zeros :
    (decimals f : ℕ) (s t : Text) (k : ℕ)
    → All IsDigit s
    → length s ≡ decimals
    → value s ≡ f
    → s ≡ t ++ replicate k b'0'
    → Fraction decimals f t
Fraction-zeros decimals f s t k digits size is e =
    let parts : length t + k ≡ decimals =
      ap (λ n. length t + n) (sym (length-replicate k b'0'))
      ∙ sym (length-append t (replicate k b'0'))
      ∙ ap length (sym e)
      ∙ size in
    let left : decimals - length t ≡ k = omega (arith, parts) in
    (
      All-append_left IsDigit t (replicate k b'0') (subst (All IsDigit) e digits),
      omega (arith, parts),
      ap (λ n. value t * 10 ^ n) left
          ∙ sym (value_from-replicate (value t) k)
          ∙ sym (value_from-append 0 t (replicate k b'0'))
          ∙ ap value (sym e)
          ∙ is,
    )

zeros-IsDigit : (k : ℕ) → All IsDigit (replicate k b'0')
zeros-IsDigit zero = tt
zeros-IsDigit (suc k) = ((omega arith, omega arith), zeros-IsDigit k)

padded-Fraction :
    (k f : ℕ)
    → f < 10 ^ suc k
    → Fraction (suc k) f (trim_zeros (pad_start (decimal f) (suc k) b'0'))
padded-Fraction k f h =
    let short = length-decimal f k h in
    let padded = pad_start (decimal f) (suc k) b'0' in
    let pad = suc k - length (decimal f) in
    let (zeros, e) = trim_zeros-zeros padded in
    Fraction-zeros (suc k) f padded (trim_zeros padded) zeros
      (All-append IsDigit (replicate pad b'0') (decimal f) (zeros-IsDigit pad) (decimal-IsDigit f))
      (omega (
        arith,
        short,
        length-append (replicate pad b'0') (decimal f),
        length-replicate {A = ℕ} pad b'0',
      ))
      (value_from-append 0 (replicate pad b'0') (decimal f)
        ∙ ap (λ n. value_from n (decimal f)) (value_from-replicate 0 pad ∙ omega arith)
        ∙ value-decimal f)
      e

fraction_str-Fraction :
    (decimals f : ℕ) → f < 10 ^ decimals → Fraction decimals f (fraction_str decimals f)
fraction_str-Fraction zero f h = (tt, omega arith, omega (arith, h, pow-zero 10))
fraction_str-Fraction (suc k) f h =
    let some_decimals : ltb 0 (suc k) ≡ true = lt→ltb 0 (suc k) (omega arith) in
    rw some_decimals (padded-Fraction k f h)

with_fraction-Reads :
    (whole fraction : Text)
    → All IsDigit whole
    → whole ≢ []
    → All IsDigit fraction
    → Reads (with_fraction whole fraction) whole fraction
with_fraction-Reads whole [] w ne f = (w, ne, inl (refl, refl))
with_fraction-Reads whole (c ∷ fraction) w ne f = (w, ne, inr (f, (λ e. cc e), refl))

with_fraction-IsSolid :
    (whole fraction : Text)
    → All IsDigit whole
    → All IsDigit fraction
    → IsSolid (with_fraction whole fraction)
with_fraction-IsSolid whole [] w f = digit_IsSolid whole w
with_fraction-IsSolid whole (c ∷ fraction) w f =
    All-append (λ d. is_space d ≡ false) whole (b'.' ∷ c ∷ fraction) (digit_IsSolid whole w)
      (refl, digit_IsSolid (c ∷ fraction) f)

remove_commas-with_fraction :
    (whole fraction : Text)
    → All IsDigit whole
    → All IsDigit fraction
    → remove_commas (with_fraction (add_thousands_separators whole) fraction)
      ≡ with_fraction whole fraction
remove_commas-with_fraction whole [] w f = remove_commas-add_thousands_separators whole w
remove_commas-with_fraction whole (c ∷ fraction) w f =
    remove_commas-append (add_thousands_separators whole) (b'.' ∷ c ∷ fraction) ∙ (λ i.
      remove_commas-add_thousands_separators whole w i
      ++ (b'.' ∷ remove_commas-digits (c ∷ fraction) f i))

-- For every positive amount up to the maximum and every number of decimals up to 255: without its commas,
-- the text that `formatTokenAmount` writes for the amount, with no symbol, is parsed by
-- `parseTokenAmount` as the amount.
pub parse_token_amount-format_token_amount :
    (v d : ℕ) (max : ℤ)
    → 0 < v
    → AtMost v max
    → d ≤ 255
    → parse_token_amount (remove_commas (format_token_amount (pos v) d none)) (some (pos d)) max
      ≡ ok v
unfolding format_token_amount
parse_token_amount-format_token_amount v d max positive bounded small =
    let whole = decimal (v / 10 ^ d) in
    let fraction = fraction_str d (v % 10 ^ d) in
    let (f, fits, is) =
      fraction_str-Fraction d (v % 10 ^ d)
        (mod-lt v (omega (arith, one-le-pow d 10 (omega arith)))) in
    let w = decimal-IsDigit (v / 10 ^ d) in
    let text = remove_commas-with_fraction whole fraction w f in
    let trimmed : trim (with_fraction whole fraction) ≡ with_fraction whole fraction =
      trim-IsSolid _ (with_fraction-IsSolid whole fraction w f) in
    let sums : v ≡ value whole * 10 ^ d + value fraction * 10 ^ (d - length fraction) =
      sym (div-add-mod' v (10 ^ d)) ∙ sym (λ i. value-decimal (v / 10 ^ d) i * 10 ^ d + is i) in
    ap (λ s. parse_token_amount s (some (pos d)) max) text
    ∙ (parse_token_amount_iff (with_fraction whole fraction) (some (pos d)) max v).1 (
      d,
      refl,
      small,
      subst (λ s. Amounts d max s v) (sym trimmed)
          (
            whole,
            fraction,
            with_fraction-Reads whole fraction w (decimal-ne-nil (v / 10 ^ d)) f,
            fits,
            sums,
            positive,
            bounded,
          ),
    )
