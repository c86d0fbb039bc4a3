-- ===== src/Ui/Strings.antt =====
-- packages/web/ui/src/string.ts. What JavaScript makes of the case of a character or a text, and the
-- integer that a text converts to, are parameters.
use predictor_common.Prelude.Text.{Text, is_space}
use predictor_common.Prelude.Int.{ℤ}
use predictor_common.Prelude.{
  ℕ, ◌≡◌, inl, inr, refl, ap, Bool, true, Bool-cases, ◌||◌, ◌==◌, Option, none, some, [], ◌∷◌, ◌++◌,
  if◌then◌else◌,
}

module _ (upper lower : ℕ → Text) where
  abbrev pub upper_first : Text → Text
  upper_first [] = []
  upper_first (c ∷ s) = upper c ++ s

  abbrev pub lower_first : Text → Text
  lower_first [] = []
  lower_first (c ∷ s) = lower c ++ s

abbrev pub is_separator : ℕ → Bool
is_separator c = is_space c || (c == b'-' || c == b'_')

-- `str.replace(/[\s\-_]/g, "")`.
unfoldable pub strip_separators : Text → Text
strip_separators [] = []
strip_separators (c ∷ s) =
    let rest = strip_separators s in if is_separator c then rest else c ∷ rest

unfoldable pub no_case : (Text → Text) → Text → Text
unfolding strip_separators
no_case to_lower str = to_lower (strip_separators str)

-- `+str` where it is an integer; `none` for any other number and for `NaN`.
unfoldable pub try_parse_int : (Text → Option ℤ) → Option Text → Option ℤ
try_parse_int integer_of none = none
try_parse_int integer_of (some []) = none
try_parse_int integer_of (some (c ∷ s)) = integer_of (c ∷ s)

strip_separators-append :
    (s t : Text) → strip_separators (s ++ t) ≡ strip_separators s ++ strip_separators t
unfolding strip_separators
strip_separators-append [] t = refl
strip_separators-append (c ∷ s) t = elim (Bool-cases (is_separator c)) [
  | inl e ↦ rw e (strip_separators-append s t)
  | inr e ↦ rw e (ap (λ l. c ∷ l) (strip_separators-append s t))
]

-- A separator anywhere changes no key.
pub no_case-separator :
    (to_lower : Text → Text) (s t : Text) (c : ℕ)
    → is_separator c ≡ true
    → no_case to_lower (s ++ (c ∷ t)) ≡ no_case to_lower (s ++ t)
unfolding no_case
no_case-separator to_lower s t c h =
    rw (strip_separators-append s (c ∷ t), strip_separators-append s t, strip_separators, h) refl
