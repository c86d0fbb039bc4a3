-- ===== src/Ui/Truncate.antt =====
-- packages/web/ui/src/truncate.ts. Lengths are natural numbers.
use predictor_common.Prelude.Text.{Text}
use predictor_common.Prelude.{
  ℕ, ◌+◌, ◌-◌, ◌≤◌, ◌<◌, ◌≡◌, refl, ◌⊎◌, false, Bool-cases, inl, inr, Option, none, some, [], ◌∷◌,
  ◌++◌, ◌==◌, leb, length, take, drop, length-append, length-take, length-drop, if◌then◌else◌,
  arith,
}

-- The options, where a missing one has its default.
pub record TruncateMiddleOptions : Type 0 where
  pub head : ℕ
  pub tail : ℕ
  pub ellipsis : Text

abbrev pub default_options : TruncateMiddleOptions
default_options = record { head = 6; tail = 6; ellipsis = 8230 ∷ [] }

-- `value.slice(-tail)`: `-0` is 0, from which a slice is the whole value.
abbrev pub slice_end : ℕ → Text → Text
slice_end tail value = if tail == 0 then value else drop (length value - tail) value

abbrev pub truncate_text : TruncateMiddleOptions → Text → Text
truncate_text options value =
    if leb (length value) (options.head + options.tail + length options.ellipsis)
    then value
    else take options.head value ++ (options.ellipsis ++ slice_end options.tail value)

unfoldable pub truncate_middle : TruncateMiddleOptions → Option Text → Option Text
truncate_middle options none = none
truncate_middle options (some value) = some (truncate_text options value)

module _ (options : TruncateMiddleOptions) (value : Text) where
  abbrev pub kept : ℕ
  kept = options.head + options.tail + length options.ellipsis

  abbrev pub ends : Text → Text
  ends end = take options.head value ++ (options.ellipsis ++ end)

  abbrev shortened : Text
  shortened = ends (slice_end options.tail value)

  length-shortened :
      options.head ≤ length value
      → length shortened
        ≡ options.head + length options.ellipsis + length (slice_end options.tail value)
  length-shortened h = omega (
    arith,
    length-append (take options.head value) (options.ellipsis ++ slice_end options.tail value),
    length-append options.ellipsis (slice_end options.tail value),
    length-take options.head value,
  )

  length-slice_end :
      0 < options.tail
      → options.tail ≤ length value
      → length (slice_end options.tail value) ≡ options.tail
  length-slice_end h k =
      let some_tail : (options.tail == 0) ≡ false = ground arith in
      rw some_tail (omega (arith, length-drop (length value - options.tail) value))

-- A value that is no longer than the kept ends and the ellipsis stays as it is. A longer one becomes its
-- first `head` characters, the ellipsis and, with a tail of at least one character, its last `tail`
-- characters: the result has exactly the length of what is kept, and so is shorter than the value. With a
-- tail of 0 the whole value follows the ellipsis, and the result is no shorter than the value.
pub truncate_middle-length :
    (options : TruncateMiddleOptions) (value : Text)
    → (result : Text) × (truncate_middle options (some value) ≡ some result)
      × (((length value ≤ kept options value) × (result ≡ value))
          ⊎ ((kept options value < length value)
              × (((0 < options.tail)
                    × (result ≡ ends options value (drop (length value - options.tail) value))
                    × (length result ≡ kept options value))
                  ⊎ ((options.tail ≡ 0)
                      × (result ≡ ends options value value)
                      × (length result ≡ kept options value + length value)))))
unfolding truncate_middle
truncate_middle-length options value = elim (Bool-cases (leb (length value) (kept options value))) [
  | inl short ↦ (value, rw short refl, inl (ground arith, refl))
  | inr long ↦
      let more : kept options value < length value = ground arith in
      let whole : length (shortened options value)
          ≡ options.head + length options.ellipsis + length (slice_end options.tail value) =
        length-shortened options value (omega arith) in
      (
        shortened options value,
        rw long refl,
        inr (
          more,
          elim (Bool-cases (options.tail == 0)) [
            | inl none_kept ↦
                let all : length (slice_end options.tail value) ≡ length value =
                  rw none_kept refl in
                inr (ground arith, rw none_kept refl, ground arith)
            | inr some_kept ↦
                let end : length (slice_end options.tail value) ≡ options.tail =
                  length-slice_end options value (ground arith) (omega arith) in
                inl (ground arith, rw some_kept refl, omega arith)
          ],
        ),
      )
]
