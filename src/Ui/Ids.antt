-- ===== src/Ui/Ids.antt =====
-- packages/web/ui/src/id.ts. The test of the pattern is a parameter, and the index of the segment is
-- natural.
use mathlib.Core.Path.{subst}
use predictor_common.Prelude.Text.{Text, split, join, codes}
use predictor_common.Prelude.{
  ℕ, zero, suc, ◌≡◌, ◌≢◌, ◌⊎◌, inl, inr, refl, sym, Bool, true, false, Bool-cases, List, [], ◌∷◌,
  map, ◌==◌, All, if◌then◌else◌, arith,
}

-- `parts.splice(index, 1)`.
abbrev pub splice_one : ℕ → List Text → List Text
splice_one i [] = []
splice_one zero (part ∷ parts) = parts
splice_one (suc i) (part ∷ parts) = part ∷ splice_one i parts

-- `part.replace(/^0+/, "")`.
abbrev pub strip_zeros : Text → Text
strip_zeros [] = []
strip_zeros (c ∷ s) = elim (c == b'0') [ true ↦ strip_zeros s | false ↦ c ∷ s ]

abbrev pub or_zero : Text → Text
or_zero [] = codes "0"
or_zero (c ∷ s) = c ∷ s

unfoldable pub simplify_parts : ℕ → List Text → List Text
simplify_parts block_hash_index parts =
    map (λ part. or_zero (strip_zeros part)) (splice_one block_hash_index parts)

unfoldable pub simplify_id : (Text → Bool) → ℕ → Text → Text
unfolding simplify_parts
simplify_id matches block_hash_index id =
    if matches id then join (codes "-") (simplify_parts block_hash_index (split b'-' id)) else id

-- A zero, or a text that does not start with one.
abbrev pub IsSimple : Text → Type 0
IsSimple [] = ⊥
IsSimple (c ∷ s) = (c ≢ b'0') ⊎ (s ≡ [])

or_zero-IsSimple : (part : Text) → IsSimple (or_zero (strip_zeros part))
or_zero-IsSimple [] = inr refl
or_zero-IsSimple (c ∷ s) = elim (Bool-cases (c == b'0')) [
  | inl e ↦
      let same : strip_zeros (c ∷ s) ≡ strip_zeros s = ground arith in
      subst (λ t. IsSimple (or_zero t)) (sym same) (or_zero-IsSimple s)
  | inr e ↦
      let same : strip_zeros (c ∷ s) ≡ c ∷ s = ground arith in
      subst (λ t. IsSimple (or_zero t)) (sym same) (inl (ground arith))
]

-- Whatever the segments are, what is shown of each is not empty and has no leading zero.
pub simplify_parts-IsSimple : (i : ℕ) (parts : List Text) → All IsSimple (simplify_parts i parts)
unfolding simplify_parts
simplify_parts-IsSimple i [] = tt
simplify_parts-IsSimple zero (part ∷ parts) = every parts
  where
    every : (list : List Text) → All IsSimple (map (λ p. or_zero (strip_zeros p)) list)
    every [] = tt
    every (p ∷ ps) = (or_zero-IsSimple p, every ps)
simplify_parts-IsSimple (suc i) (part ∷ parts) =
    (or_zero-IsSimple part, simplify_parts-IsSimple i parts)
