-- ===== src/Squid/Inputs/Ranges.antt =====
-- What the resolvers of packages/indexer/squid-common/src/inputs.ts accept.
use predictor_common.Prelude.Text.{Text, codes}
use predictor_common.Prelude.Int.{ℤ}
use predictor_common.Prelude.{
  ◌≡◌, ◌⊎◌, refl, ap, ◌∙◌, true, false, Option, none, some, ◌++◌, Option-cases, Bool-cases, inl,
  inr,
}
use predictor_common.Squid.Inputs.{
  Checked, returned, thrown, of_parse, parse_args, DateRange, ordered, le_time, range_of,
  date_range_input,
}

abbrev pub IsThrown {ℓ} : {A : Type ℓ} → Checked A → Type 0
IsThrown (returned a) = ⊥
IsThrown (thrown message) = Unit

abbrev pub order_message : Text → Text
order_message query_name =
    codes "Invalid arguments to "
    ++ (query_name ++ codes ": startTime: startTime must be before or equal to endTime")

module _ (time_of : Text → Option ℤ) (start end : Text) where
  abbrev pub IsRange : DateRange → Type 0
  IsRange r =
      (time_of start ≡ some r.start_time)
      × (time_of end ≡ some r.end_time)
      × (le_time r.start_time r.end_time ≡ true)

  abbrev pub IsReversed : Type 0
  IsReversed = (a b : ℤ) × (time_of start ≡ some a) × (time_of end ≡ some b) × (le_time a b ≡ false)

range_of-dates :
    (time_of : Text → Option ℤ) (date_issue start end : Text) (a b : ℤ)
    → time_of start ≡ some a
    → time_of end ≡ some b
    → date_range_input time_of date_issue (start, end)
      ≡ ordered (record { start_time = a; end_time = b })
unfolding date_range_input
range_of-dates time_of date_issue start end a b e f = rw (e, f, range_of) refl

-- For every query, a pair of dates is in one of three cases: both are valid and the first is not
-- after the second, and the resolver is given their times; or one is invalid, and it throws; or the first is after
-- the second, and it throws with the message that names the query and `startTime`.
pub parse_args-date_range :
    (time_of : Text → Option ℤ) (date_issue start end query_name : Text)
    → ((r : DateRange) × (parse_args (date_range_input time_of date_issue) (start, end) query_name
          ≡ returned r)
        × IsRange time_of start end r)
      ⊎ ((((time_of start ≡ none) ⊎ (time_of end ≡ none))
            × IsThrown (parse_args (date_range_input time_of date_issue) (start, end) query_name))
          ⊎ (IsReversed time_of start end
              × (parse_args (date_range_input time_of date_issue) (start, end) query_name
                  ≡ thrown (order_message query_name))))
unfolding parse_args date_range_input
parse_args-date_range time_of date_issue start end query_name =
    elim (Option-cases (time_of start)) [
      | inl e ↦ elim (Option-cases (time_of end)) [
        | inl f ↦ inr (inl (inl e, rw (e, f) tt))
        | inr (b, f) ↦ inr (inl (inl e, rw (e, f) tt))
      ]
      | inr (a, e) ↦ elim (Option-cases (time_of end)) [
        | inl f ↦ inr (inl (inr f, rw (e, f) tt))
        | inr (b, f) ↦ elim (Bool-cases (le_time a b)) [
          | inl g ↦ inl (
            record { start_time = a; end_time = b },
            ap (of_parse query_name) (range_of-dates time_of date_issue start end a b e f)
                ∙ rw g refl,
            (e, f, g),
          )
          | inr g ↦ inr (
              inr (
                (a, b, e, f, g),
                ap (of_parse query_name) (range_of-dates time_of date_issue start end a b e f)
                    ∙ rw g refl,
              ))
        ]
      ]
    ]
