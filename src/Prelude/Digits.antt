-- ===== src/Prelude/Digits.antt =====
-- Numerals: `toString(radix)` and the value of a run of digits.
use Prim.Native.Nat.{ℕ, zero, suc, ◌+◌, ◌-◌, ◌*◌, ◌/◌, ◌%◌, ◌^◌, ◌<◌, ◌≤◌}
use native.Mathlib.Nat.{pow-suc, pow-zero}
use mathlib.Core.Path.{◌≡◌, refl, ◌∙◌}
use mathlib.Core.List.{[], ◌∷◌, ◌++◌}
use mathlib.Core.Logic.{inl, inr, ◌≢◌}
use mathlib.Core.Bool.{Bool, true, false, ◌&&◌}
use native.Mathlib.Omega.{arith}
use predictor_common.Prelude.Tests.{ltb, lt→ltb, leb, Bool-cases}
use predictor_common.Prelude.Lists.{All, All-append, length, length-append}
use predictor_common.Prelude.Text.{Text}

abbrev pub is_digit : ℕ → Bool
is_digit c = leb b'0' c && leb c b'9'

abbrev pub IsDigit : ℕ → Type 0
IsDigit c = (b'0' ≤ c) × (c ≤ b'9')

-- The last digit of each quotient stands last; one round for each digit.
pub decimal_from : ℕ → ℕ → Text
decimal_from zero n = []
decimal_from (suc f) n = elim (ltb n 10) [
  | true ↦ (b'0' + n) ∷ []
  | false ↦ decimal_from f (n / 10) ++ (b'0' + n % 10) ∷ []
]

-- `n.toString()` of a non-negative integer.
unfoldable pub decimal : ℕ → Text
unfolding decimal_from
decimal n = decimal_from (suc n) n

-- `BigInt(s)` of a run of decimal digits, continued from `n`.
abbrev pub value_from : ℕ → Text → ℕ
value_from n [] = n
value_from n (c ∷ s) = value_from (n * 10 + (c - b'0')) s

abbrev pub value : Text → ℕ
value s = value_from 0 s

pub value_from-append : (n : ℕ) (s t : Text) → value_from n (s ++ t) ≡ value_from (value_from n s) t
value_from-append n [] t = refl
value_from-append n (c ∷ s) t = value_from-append (n * 10 + (c - b'0')) s t

value-decimal_from : (f n : ℕ) → n < f → value (decimal_from f n) ≡ n
unfolding decimal_from
value-decimal_from zero n h = elim h [ ]
value-decimal_from (suc f) n h = elim (Bool-cases (ltb n 10)) [
  | inl small ↦ rw (small, decimal_from) (omega arith)
  | inr large ↦
      rw (large, decimal_from, value_from-append 0 (decimal_from f (n / 10)) ((b'0' + n % 10) ∷ []))
        (ground (arith, value-decimal_from f (n / 10)))
]

pub value-decimal : (n : ℕ) → value (decimal n) ≡ n
unfolding decimal
value-decimal n = value-decimal_from (suc n) n (omega arith)

decimal_from-IsDigit : (f n : ℕ) → All IsDigit (decimal_from f n)
unfolding decimal_from
decimal_from-IsDigit zero n = tt
decimal_from-IsDigit (suc f) n = elim (Bool-cases (ltb n 10)) [
  | inl small ↦ rw (small, decimal_from) ((omega arith, ground arith), tt)
  | inr large ↦
      rw (large, decimal_from)
        (All-append IsDigit (decimal_from f (n / 10)) ((b'0' + n % 10) ∷ [])
          (decimal_from-IsDigit f (n / 10)) ((omega arith, omega arith), tt))
]

pub decimal-IsDigit : (n : ℕ) → All IsDigit (decimal n)
unfolding decimal
decimal-IsDigit n = decimal_from-IsDigit (suc n) n

snoc-ne-nil : (s : Text) (c : ℕ) → s ++ c ∷ [] ≢ []
snoc-ne-nil [] c = cc
snoc-ne-nil (d ∷ s) c = cc

decimal_from-ne-nil : (f n : ℕ) → decimal_from (suc f) n ≢ []
unfolding decimal_from
decimal_from-ne-nil f n = elim (Bool-cases (ltb n 10)) [
  | inl small ↦ rw (small, decimal_from) (cc)
  | inr large ↦ rw (large, decimal_from) (snoc-ne-nil (decimal_from f (n / 10)) (b'0' + n % 10))
]

pub decimal-ne-nil : (n : ℕ) → decimal n ≢ []
unfolding decimal
decimal-ne-nil n = decimal_from-ne-nil n n

-- A number below a power of ten has at most as many digits.
tenth-lt : (n k : ℕ) → n < 10 ^ suc (suc k) → n / 10 < 10 ^ suc k
tenth-lt n k h = let e = pow-suc 10 (suc k) in omega (arith, h, e)

length-snoc : (s : Text) (c : ℕ) → length (s ++ c ∷ []) ≡ suc (length s)
length-snoc s c = length-append s (c ∷ []) ∙ omega arith

length-decimal_from : (f n k : ℕ) → n < 10 ^ suc k → length (decimal_from f n) ≤ suc k
unfolding decimal_from
length-decimal_from zero n k h = omega arith
length-decimal_from (suc f) n zero h =
    let small : ltb n 10 ≡ true = lt→ltb n 10 (omega (arith, h, pow-suc 10 0, pow-zero 10)) in
    rw (small, decimal_from) (omega arith)
length-decimal_from (suc f) n (suc k) h = elim (Bool-cases (ltb n 10)) [
  | inl small ↦ rw (small, decimal_from) (omega arith)
  | inr large ↦
      let rest = length-decimal_from f (n / 10) k (tenth-lt n k h) in
      rw (large, decimal_from)
        (omega (arith, rest, length-snoc (decimal_from f (n / 10)) (b'0' + n % 10)))
]

pub length-decimal : (n k : ℕ) → n < 10 ^ suc k → length (decimal n) ≤ suc k
unfolding decimal
length-decimal n k h = length-decimal_from (suc n) n k h
