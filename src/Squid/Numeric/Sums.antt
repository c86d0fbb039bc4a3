-- ===== src/Squid/Numeric/Sums.antt =====
-- What the sums of packages/indexer/squid-common/src/numeric.ts are.
use predictor_common.Prelude.Text.{Text}
use predictor_common.Prelude.{
  ◌≡◌, refl, sym, ap, ◌∙◌, Bool, true, false, ◌||◌, Option, none, some, List, [], ◌∷◌, ◌++◌,
  append-nil, Option-cases, inl, inr, if◌then◌else◌, arith,
}
use predictor_common.Squid.Numeric.{
  BigDecimals, ◌>>=◌, shown, sum_from, sum_strings, add_strings, NumericAccumulator,
  new_accumulator, accumulate, accumulate_all, to_string_or_null,
}

module _ (decimals : BigDecimals) where
  open decimals use {
    BigDecimal, parse, zero, add, to_text, add-zero, zero-add, add_assoc, parse-to_text,
  }

  -- The decimals of the values that are present; `none` if one of them is no decimal.
  abbrev pub parse_all : List (Option Text) → Option (List BigDecimal)
  parse_all [] = some []
  parse_all (none ∷ values) = parse_all values
  parse_all (some v ∷ values) = do d ← parse v; ds ← parse_all values; some (d ∷ ds)

  abbrev pub total : List BigDecimal → BigDecimal
  total [] = zero
  total (d ∷ ds) = add d (total ds)

  abbrev pub is_cons : List BigDecimal → Bool
  is_cons [] = false
  is_cons (d ∷ ds) = true

  -- The abstract sum: of nothing, or of one value at least.
  abbrev pub Sum : Type 0
  Sum = Option BigDecimal

  abbrev pub sum_of : List BigDecimal → Sum
  sum_of ds = if is_cons ds then some (total ds) else none

  abbrev pub text_of : Sum → Option Text
  text_of none = none
  text_of (some d) = some (to_text d)

  sum_from_lem :
      (has_value : Bool) (acc : BigDecimal) (values : List (Option Text))
      → sum_from decimals has_value acc values ≡ (do
        ds ← parse_all values
        some (shown decimals (has_value || is_cons ds) (add acc (total ds))))
  unfolding sum_from
  sum_from_lem has_value acc [] = ground (arith, add-zero acc)
  sum_from_lem has_value acc (none ∷ values) = sum_from_lem has_value acc values
  sum_from_lem has_value acc (some v ∷ values) = elim (Option-cases (parse v)) [
    | inl e ↦ rw e refl
    | inr (d, e) ↦
        rw (e, sum_from_lem true (add acc d) values)
          (elim (Option-cases (parse_all values)) [
            | inl f ↦ rw f refl
            | inr (ds, f) ↦ ground (arith, f, add_assoc acc d (total ds))
          ])
  ]

  -- The sum of texts as one of decimals: none when no value is present, else exactly the total.
  sum_strings_lem :
      (values : List (Option Text))
      → sum_strings decimals values ≡ (do ds ← parse_all values; some (text_of (sum_of ds)))
  unfolding sum_strings
  sum_strings_lem values =
      rw (sum_from_lem false zero values) (elim (Option-cases (parse_all values)) [
        | inl e ↦ rw e refl
        | inr ([], e) ↦ rw e refl
        | inr (d ∷ ds, e) ↦ rw (e, zero-add (add d (total ds))) refl
      ])

  -- What an accumulator stands for.
  abbrev pub represented : NumericAccumulator decimals → Sum
  represented a = if a.has_data then some a.value else none

  accumulate_all-sum_from :
      (a : NumericAccumulator decimals) (values : List (Option Text))
      → (do b ← accumulate_all decimals a values; some (to_string_or_null decimals b))
        ≡ sum_from decimals a.has_data a.value values
  unfolding accumulate_all accumulate sum_from to_string_or_null
  accumulate_all-sum_from a [] = refl
  accumulate_all-sum_from a (none ∷ values) = accumulate_all-sum_from a values
  accumulate_all-sum_from a (some v ∷ values) = elim (Option-cases (parse v)) [
    | inl e ↦ rw e refl
    | inr (d, e) ↦
        rw e (accumulate_all-sum_from (record { value = add a.value d; has_data = true }) values)
  ]

  total-append : (xs ys : List BigDecimal) → total (xs ++ ys) ≡ add (total xs) (total ys)
  total-append [] ys = sym (zero-add (total ys))
  total-append (x ∷ xs) ys =
      ap (add x) (total-append xs ys) ∙ sym (add_assoc x (total xs) (total ys))

  parse_all-append :
      (xs ys : List (Option Text))
      → parse_all (xs ++ ys) ≡ (do ds ← parse_all xs; es ← parse_all ys; some (ds ++ es))
  parse_all-append [] ys = ground (arith, Option-cases (parse_all ys))
  parse_all-append (none ∷ xs) ys = parse_all-append xs ys
  parse_all-append (some v ∷ xs) ys = elim (Option-cases (parse v)) [
    | inl e ↦ rw e refl
    | inr (d, e) ↦
        rw (e, parse_all-append xs ys)
          (ground (arith, Option-cases (parse_all xs), Option-cases (parse_all ys)))
  ]

  -- Two sums into one.
  abbrev pub merge : Option Text → Option Text → Option (Option Text)
  merge none b = some b
  merge (some a) none = some (some a)
  merge (some a) (some b) = do t ← add_strings decimals a b; some (some t)

  add_strings-text :
      (a b : BigDecimal) → add_strings decimals (to_text a) (to_text b) ≡ some (to_text (add a b))
  unfolding add_strings
  add_strings-text a b = rw (parse-to_text a, parse-to_text b) refl

  merge-sum_of :
      (ds es : List BigDecimal)
      → merge (text_of (sum_of ds)) (text_of (sum_of es)) ≡ some (text_of (sum_of (ds ++ es)))
  merge-sum_of [] es = refl
  merge-sum_of (d ∷ ds) [] = rw (append-nil ds) refl
  merge-sum_of (d ∷ ds) (e ∷ es) =
      rw
        (
          add_strings-text (add d (total ds)) (add e (total es)),
          total-append ds (e ∷ es),
          add_assoc d (total ds) (add e (total es)),
        )
        refl

-- Where the decimals are exact, an accumulator that is given values one after the other gives the text
-- of their exact total, and null exactly when no value was present; `sumStrings` of the same values
-- gives the same. Both throw exactly when a value that is present is no decimal.
pub accumulator-refines :
    (decimals : BigDecimals) (values : List (Option Text))
    → ((do
      a ← accumulate_all decimals (new_accumulator decimals) values
      some (to_string_or_null decimals a))
        ≡ (do ds ← parse_all decimals values; some (text_of decimals (sum_of decimals ds))))
      × (sum_strings decimals values
          ≡ (do ds ← parse_all decimals values; some (text_of decimals (sum_of decimals ds))))
unfolding sum_strings
accumulator-refines decimals values = (
  accumulate_all-sum_from decimals (new_accumulator decimals) values
      ∙ sum_strings_lem decimals values,
  sum_strings_lem decimals values,
)

-- Where the decimals are exact, the sum of a list in two parts is the sums of the parts added by
-- `addStrings`, a part without values counting for nothing; it throws when a part does.
pub sum_strings-append :
    (decimals : BigDecimals) (xs ys : List (Option Text))
    → sum_strings decimals (xs ++ ys)
      ≡ (do a ← sum_strings decimals xs; b ← sum_strings decimals ys; merge decimals a b)
sum_strings-append decimals xs ys =
    rw
      (
        sum_strings_lem decimals (xs ++ ys),
        sum_strings_lem decimals xs,
        sum_strings_lem decimals ys,
        parse_all-append decimals xs ys,
      )
      (elim (Option-cases (parse_all decimals xs)) [
        | inl e ↦ rw e refl
        | inr (ds, e) ↦ elim (Option-cases (parse_all decimals ys)) [
          | inl f ↦ rw (e, f) refl
          | inr (es, f) ↦ rw (e, f) (sym (merge-sum_of decimals ds es))
        ]
      ])
