-- ===== src/Ui/Amount/Parsing.antt =====
-- What `parseTokenAmount` of packages/web/ui/src/amount.ts accepts, and what it returns.
use mathlib.Core.Path.{subst}
use native.Mathlib.Nat.{pow-succ', mul_assoc}
use predictor_common.Prelude.Text.{Text, trim}
use predictor_common.Prelude.Digits.{value, value_from, value_from-append, is_digit, IsDigit}
use predictor_common.Prelude.Int.{ℤ, pos, negsuc}
use predictor_common.Prelude.{
  ℕ, zero, suc, ◌+◌, ◌-◌, ◌*◌, ◌^◌, ◌≤◌, ◌<◌, ◌≡◌, ◌≢◌, ◌↔◌, ◌⊎◌, inl, inr, refl, sym, ap, ◌∙◌,
  true, false, ◌==◌, Option, none, some, [], ◌∷◌, ◌++◌, append-nil, ==_iff, length, replicate, All,
  Bool-cases, Option-cases, leb, ltb, ltb→le, le→ltb, arith,
}
use predictor_common.Ui.Amount.{
  ok, span_digits, match_fraction, match_whole, match_number, exceeds, amount_of, within, of_groups,
  of_text, parse_token_amount,
}

-- A text is a whole part, or a whole part, a point and a fraction, of one digit or more each.
abbrev pub Reads : Text → Text → Text → Type 0
Reads s whole fraction =
    All IsDigit whole
    × (whole ≢ [])
    × (((fraction ≡ []) × (s ≡ whole))
        ⊎ (All IsDigit fraction × (fraction ≢ []) × (s ≡ whole ++ (b'.' ∷ fraction))))

span_sound :
    (s : Text) → All IsDigit (span_digits s).0 × ((span_digits s).0 ++ (span_digits s).1 ≡ s)
unfolding span_digits
span_sound [] = (tt, refl)
span_sound (c ∷ s) = elim (Bool-cases (is_digit c)) [
  | inl digit ↦
      let (digits, whole) = span_sound s in
      rw digit ((((ground (arith, digit), ground (arith, digit)), digits), ap (λ t. c ∷ t) whole))
  | inr other ↦ rw other (tt, refl)
]

-- Digits before something else.
abbrev Stops : Text → Type 0
Stops [] = Unit
Stops (c ∷ s) = is_digit c ≡ false

span-append : (w rest : Text) → All IsDigit w → Stops rest → span_digits (w ++ rest) ≡ (w, rest)
unfolding span_digits
span-append [] [] h stop = refl
span-append [] (c ∷ rest) h stop = rw stop refl
span-append (c ∷ w) rest (h, hs) stop =
    let digit : is_digit c ≡ true = ground (arith, h) in rw (digit, span-append w rest hs stop) refl

pub value_from-replicate : (n k : ℕ) → value_from n (replicate k b'0') ≡ n * 10 ^ k
value_from-replicate n zero = omega arith
value_from-replicate n (suc k) =
    let e : n * 10 + 0 ≡ n * 10 = omega arith in
    value_from-replicate (n * 10 + 0) k ∙ rw (e, pow-succ' 10 k) (mul_assoc n 10 (10 ^ k))

-- Equal pairs under `some`.
some_pair :
    {a b c d : Text}
    → ◌≡◌ {A = Option (Text × Text)} (some (a, b)) (some (c, d))
    → (a ≡ c) × (b ≡ d)
some_pair h = (cc h, cc h)

match_fraction_sound :
    (w : Text) (spanned : Text × Text) (whole fraction : Text)
    → All IsDigit spanned.0
    → match_fraction w spanned ≡ some (whole, fraction)
    → (w ≡ whole) × All IsDigit fraction × (fraction ≢ []) × (spanned.0 ++ spanned.1 ≡ fraction)
match_fraction_sound w ([], rest) whole fraction digits h = absurd (cc h)
match_fraction_sound w (c ∷ f, d ∷ rest) whole fraction digits h = absurd (cc h)
match_fraction_sound w (c ∷ f, []) whole fraction digits h =
    let (ew, ef) = some_pair h in
    (
      ew,
      subst (All IsDigit) ef digits,
      (λ none_left. absurd (cc (ef ∙ none_left))),
      append-nil (c ∷ f) ∙ ef,
    )

match_whole_sound :
    (spanned : Text × Text) (whole fraction : Text)
    → All IsDigit spanned.0
    → match_whole spanned ≡ some (whole, fraction)
    → Reads (spanned.0 ++ spanned.1) whole fraction
match_whole_sound ([], rest) whole fraction digits h = absurd (cc h)
match_whole_sound (c ∷ w, []) whole fraction digits h =
    let (ew, ef) = some_pair h in
    (
      subst (All IsDigit) ew digits,
      (λ none_left. absurd (cc (ew ∙ none_left))),
      inl (sym ef, append-nil (c ∷ w) ∙ ew),
    )
match_whole_sound (c ∷ w, d ∷ rest) whole fraction digits h = elim (Bool-cases (d == b'.')) [
  | inr other ↦ absurd (cc (rw other at h))
  | inl point ↦
      let (all_digits, parts) = span_sound rest in
      let (ew, f, some_left, ef) =
        match_fraction_sound (c ∷ w) (span_digits rest) whole fraction all_digits (rw point at h) in
      (
        subst (All IsDigit) ew digits,
        (λ none_left. absurd (cc (ew ∙ none_left))),
        inr (f, some_left, λ i. ew i ++ ((==_iff d b'.').0 point i ∷ (sym parts ∙ ef) i)),
      )
]

match_number_sound :
    (s whole fraction : Text) → match_number s ≡ some (whole, fraction) → Reads s whole fraction
unfolding match_number
match_number_sound s whole fraction h =
    let (digits, parts) = span_sound s in
    subst (λ t. Reads t whole fraction) parts
      (match_whole_sound (span_digits s) whole fraction digits h)

span_digits_whole : (w : Text) → All IsDigit w → span_digits w ≡ (w, [])
span_digits_whole w h = ap span_digits (sym (append-nil w)) ∙ span-append w [] h tt

match_number_complete :
    (s whole fraction : Text) → Reads s whole fraction → match_number s ≡ some (whole, fraction)
unfolding match_number
match_number_complete s [] fraction (w, ne, r) = absurd (ne refl)
match_number_complete s (c ∷ whole) fraction (w, ne, inl (none_left, is)) =
    rw (is ∙ sym (append-nil (c ∷ whole)), span-append (c ∷ whole) [] w tt, none_left) refl
match_number_complete s (c ∷ whole) [] (w, ne, inr (f, some_left, is)) = absurd (some_left refl)
match_number_complete s (c ∷ whole) (d ∷ fraction) (w, ne, inr (f, some_left, is)) =
    rw
      (is, span-append (c ∷ whole) (b'.' ∷ d ∷ fraction) w refl, span_digits_whole (d ∷ fraction) f)
      refl

amount_of_lem :
    (d : ℕ) (whole fraction : Text)
    → amount_of d whole fraction
      ≡ value whole * 10 ^ d + value fraction * 10 ^ (d - length fraction)
amount_of_lem d whole [] = grind arith
amount_of_lem d whole (c ∷ fraction) =
    ap (λ n. value whole * 10 ^ d + n)
      (value_from-append 0 (c ∷ fraction) (replicate (d - length (c ∷ fraction)) b'0')
        ∙ value_from-replicate (value (c ∷ fraction)) (d - length (c ∷ fraction)))

abbrev pub AtMost : ℕ → ℤ → Type 0
AtMost v (pos max) = v ≤ max
AtMost v (negsuc n) = ⊥

exceeds_iff : (v : ℕ) (max : ℤ) → (exceeds v max ≡ false) ↔ AtMost v max
exceeds_iff v (pos max) = ground arith
exceeds_iff v (negsuc n) = ground arith

within_iff :
    (max : ℤ) (amount v : ℕ) → (within max amount ≡ ok v) ↔ ((v ≡ amount) × (0 < v) × AtMost v max)
within_iff max amount v = elim (Bool-cases (amount == 0)) [
  | inl nothing ↦
      rw nothing ((λ h. absurd (cc h)), (λ h. absurd (ground (arith, nothing, h.0, h.1))))
  | inr something ↦ elim (Bool-cases (exceeds amount max)) [
    | inl over ↦
        rw (something, over)
          (
            (λ h. absurd (cc h)),
            (λ h.
                absurd
                  (cc (sym over ∙ ap (λ n. exceeds n max) (sym h.0) ∙ (exceeds_iff v max).1 h.2))),
          )
    | inr fits ↦
        rw (something, fits)
          (
            (λ h.
                let is : amount ≡ v = cc h in
                (
                  sym is,
                  ground (arith, something),
                  subst (λ n. AtMost n max) is ((exceeds_iff amount max).0 fits),
                )),
            (λ h. ap ok (sym h.0)),
          )
  ]
]

-- The amount that a whole part and a fraction stand for.
abbrev pub Amounts : ℕ → ℤ → Text → ℕ → Type 0
Amounts d max s v =
    (whole : Text) × (fraction : Text) × Reads s whole fraction
    × (length fraction ≤ d)
    × (v ≡ value whole * 10 ^ d + value fraction * 10 ^ (d - length fraction))
    × (0 < v)
    × AtMost v max

of_groups_sound :
    (d : ℕ) (max : ℤ) (s : Text) (v : ℕ)
    → of_groups d max (match_number s) ≡ ok v
    → Amounts d max s v
of_groups_sound d max s v h = elim (Option-cases (match_number s)) [
  | inl miss ↦ absurd (cc (ap (of_groups d max) (sym miss) ∙ h))
  | inr ((whole, fraction), groups) ↦
      let h' : of_groups d max (some (whole, fraction)) ≡ ok v =
        ap (of_groups d max) (sym groups) ∙ h in
      elim (Bool-cases (ltb d (length fraction))) [
        | inl many ↦ absurd (cc (rw many at h'))
        | inr fits ↦
            let (is, positive, bounded) =
              (within_iff max (amount_of d whole fraction) v).0 (rw fits at h') in
            (
              whole,
              fraction,
              match_number_sound s whole fraction groups,
              ltb→le d (length fraction) fits,
              is ∙ amount_of_lem d whole fraction,
              positive,
              bounded,
            )
      ]
]

of_groups_complete :
    (d : ℕ) (max : ℤ) (s : Text) (v : ℕ)
    → Amounts d max s v
    → of_groups d max (match_number s) ≡ ok v
of_groups_complete d max s v (whole, fraction, reads, fits, is, positive, bounded) =
    rw (match_number_complete s whole fraction reads, le→ltb d (length fraction) fits, of_groups)
      ((within_iff max (amount_of d whole fraction) v).1
        (is ∙ sym (amount_of_lem d whole fraction), positive, bounded))

nothing-Reads : (whole fraction : Text) → Reads [] whole fraction → ⊥
nothing-Reads [] fraction (w, ne, shape) = ne refl
nothing-Reads (c ∷ whole) fraction (w, ne, inl (_, is)) = cc is
nothing-Reads (c ∷ whole) fraction (w, ne, inr (_, _, is)) = cc is

of_text_iff : (d : ℕ) (max : ℤ) (s : Text) (v : ℕ) → (of_text d max s ≡ ok v) ↔ Amounts d max s v
of_text_iff d max [] v = (λ h. absurd (cc h), λ h. absurd (nothing-Reads h.0 h.1 h.2))
of_text_iff d max (c ∷ s) v = (of_groups_sound d max (c ∷ s) v, of_groups_complete d max (c ∷ s) v)

-- `parseTokenAmount` returns an amount exactly when the decimals are an integer from 0 to 255, the
-- trimmed text reads as a whole part with a fraction of at most that many digits, and the number that
-- they spell, in base units, is positive and at most the maximum; and it returns that number.
pub parse_token_amount_iff :
    (input : Text) (decimals : Option ℤ) (max : ℤ) (v : ℕ)
    → (parse_token_amount input decimals max ≡ ok v)
      ↔ ((d : ℕ) × (decimals ≡ some (pos d)) × (d ≤ 255) × Amounts d max (trim input) v)
unfolding parse_token_amount
parse_token_amount_iff input none max v = (λ h. absurd (cc h), λ h. absurd (cc h.1))
parse_token_amount_iff input (some (negsuc n)) max v = (λ h. absurd (cc h), λ h. absurd (cc h.1))
parse_token_amount_iff input (some (pos d)) max v = elim (Bool-cases (leb d 255)) [
  | inr large ↦ rw large (
    λ h. absurd (cc h),
    λ h. let is : d ≡ h.0 = cc h.1 in absurd (ground (arith, large, is, h.2)),
  )
  | inl fits ↦ rw fits (
    λ h. (d, refl, ground (arith, fits), (of_text_iff d max (trim input) v).0 h),
    λ h.
        let is : d ≡ h.0 = cc h.1 in
        (of_text_iff d max (trim input) v).1
          (subst (λ n. Amounts n max (trim input) v) (sym is) h.3),
  )
]
