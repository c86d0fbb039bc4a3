-- ===== src/Ui/Duration.antt =====
-- packages/web/ui/src/duration.ts, of a whole number of milliseconds below 2 ^ 50: there the quotient
-- of doubles is on the same side of every half as the exact one.
use predictor_common.Prelude.Text.{Text, codes}
use predictor_common.Prelude.Digits.{decimal}
use predictor_common.Prelude.{
  ℕ, ◌+◌, ◌*◌, ◌/◌, ◌≤◌, ◌<◌, ◌≡◌, ◌⊎◌, inl, inr, refl, Bool-cases, ◌++◌, ◌==◌, leb, if◌then◌else◌,
  arith,
}

abbrev pub ms_per_hour : ℕ
ms_per_hour = 3600000

abbrev pub ms_per_minute : ℕ
ms_per_minute = 60000

-- `Math.round(ms / unit)`: a half is rounded up.
abbrev pub rounded : ℕ → ℕ → ℕ
rounded ms unit = (2 * ms + unit) / (2 * unit)

abbrev pub at_least_one : ℕ → ℕ
at_least_one n = if leb 1 n then n else 1

abbrev pub counted : ℕ → Text → Text
counted n unit = decimal n ++ (codes " " ++ (unit ++ (if n == 1 then codes "" else codes "s")))

unfoldable pub format_duration : ℕ → Text
format_duration ms =
    let hours = rounded ms ms_per_hour in
    if leb 1 hours
    then counted hours (codes "hour")
    else counted (at_least_one (rounded ms ms_per_minute)) (codes "minute")

-- A count that is within half a unit of the span.
abbrev pub IsNearest : ℕ → ℕ → ℕ → Type 0
IsNearest ms unit n = (2 * (n * unit) ≤ 2 * ms + unit) × (2 * ms < 2 * (n * unit) + unit)

-- From half an hour on, a span is shown in hours, and below it in minutes. The count is within half a
-- unit of the span, or it is one minute for a span below half a minute.
pub format_duration-IsNearest :
    (ms : ℕ)
    → ((n : ℕ) × (format_duration ms ≡ counted n (codes "hour"))
        × (1800000 ≤ ms)
        × (1 ≤ n)
        × IsNearest ms ms_per_hour n)
      ⊎ ((n : ℕ) × (format_duration ms ≡ counted n (codes "minute"))
          × (ms < 1800000)
          × (1 ≤ n)
          × (IsNearest ms ms_per_minute n ⊎ ((n ≡ 1) × (ms < 30000))))
unfolding format_duration
format_duration-IsNearest ms = elim (Bool-cases (leb 1 (rounded ms ms_per_hour))) [
  | inl long ↦ inl (
    rounded ms ms_per_hour,
    rw long refl,
    ground (arith, long),
    ground (arith, long),
    (omega arith, omega arith),
  )
  | inr short ↦ elim (Bool-cases (leb 1 (rounded ms ms_per_minute))) [
    | inl some_minutes ↦ inr (
      rounded ms ms_per_minute,
      rw (short, some_minutes) refl,
      ground (arith, short),
      ground (arith, some_minutes),
      inl (omega arith, omega arith),
    )
    | inr moment ↦ inr (
      1,
      rw (short, moment) refl,
      ground (arith, short),
      omega arith,
      inr (refl, ground (arith, moment)),
    )
  ]
]
