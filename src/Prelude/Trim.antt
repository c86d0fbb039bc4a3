-- ===== src/Prelude/Trim.antt =====
-- Texts that `trim` leaves as they are.
use mathlib.Core.List.{[], ◌∷◌, ◌++◌, reverse, reverse-cons, reverse-reverse}
use mathlib.Core.Path.{◌≡◌, refl, sym, ap, subst, ◌∙◌}
use mathlib.Core.Bool.{true, false}
use mathlib.Core.Logic.{◌↔◌, ◌⊎◌, ◌≢◌, inl, inr}
use Prim.Native.Nat.{ℕ}
use predictor_common.Prelude.Lists.{All, All-append, All-append_right}
use predictor_common.Prelude.Tests.{Bool-cases}
use predictor_common.Prelude.Text.{Text, is_space, trim_start, trim}

-- No white space.
abbrev pub IsSolid : Text → Type 0
IsSolid s = All (λ c. is_space c ≡ false) s

reverse-IsSolid : (s : Text) → IsSolid s → IsSolid (reverse s)
reverse-IsSolid [] h = tt
reverse-IsSolid (c ∷ s) (h, hs) =
    rw (reverse-cons c s)
      (All-append (λ c. is_space c ≡ false) (reverse s) (c ∷ []) (reverse-IsSolid s hs) (h, tt))

trim_start-IsSolid : (s : Text) → IsSolid s → trim_start s ≡ s
trim_start-IsSolid [] h = refl
trim_start-IsSolid (c ∷ s) (h, hs) = rw (h, trim_start) refl

pub trim-IsSolid : (s : Text) → IsSolid s → trim s ≡ s
trim-IsSolid s h =
    ap (λ t. reverse (trim_start (reverse t))) (trim_start-IsSolid s h)
    ∙ ap reverse (trim_start-IsSolid (reverse s) (reverse-IsSolid s h))
    ∙ reverse-reverse s

-- Only white space.
abbrev pub IsBlank : Text → Type 0
IsBlank s = All (λ c. is_space c ≡ true) s

trim_start-IsBlank : (s : Text) → IsBlank s → trim_start s ≡ []
trim_start-IsBlank [] h = refl
trim_start-IsBlank (c ∷ s) (h, hs) = rw (h, trim_start) (trim_start-IsBlank s hs)

-- What is left is nothing, or begins with a unit that is no white space.
trim_start-cases :
    (s : Text)
    → (IsBlank s × (trim_start s ≡ []))
      ⊎ ((c : ℕ) × (t : Text) × (trim_start s ≡ c ∷ t) × (is_space c ≡ false))
trim_start-cases [] = inl (tt, refl)
trim_start-cases (c ∷ s) = elim (Bool-cases (is_space c)) [
  | inl space ↦ elim (trim_start-cases s) [
    | inl (blank, e) ↦ inl ((space, blank), rw (space, trim_start) e)
    | inr (d, t, e, solid) ↦ inr (d, t, rw (space, trim_start) e, solid)
  ]
  | inr solid ↦ inr (c, s, rw (solid, trim_start) refl, solid)
]

reverse-nil : (s : Text) → reverse s ≡ [] → s ≡ []
reverse-nil s h = sym (reverse-reverse s) ∙ ap reverse h

trim-cons : (c : ℕ) (t : Text) → is_space c ≡ false → reverse (trim_start (reverse (c ∷ t))) ≢ []
trim-cons c t solid = λ h. elim (trim_start-cases (reverse (c ∷ t))) [
  | inl (blank, e) ↦
      let parts : IsBlank (reverse t ++ (c ∷ [])) = subst IsBlank (reverse-cons c t) blank in
      let (space, _) = All-append_right (λ d. is_space d ≡ true) (reverse t) (c ∷ []) parts in
      cc (space, solid)
  | inr (d, u, e, other) ↦ cc (reverse-nil (trim_start (reverse (c ∷ t))) h, e)
]

-- A text is trimmed to nothing exactly when it is blank.
pub trim-IsBlank_iff : (s : Text) → (trim s ≡ []) ↔ IsBlank s
trim-IsBlank_iff s = elim (trim_start-cases s) [
  | inl (blank, e) ↦ ((λ h. blank), λ h. ap (λ t. reverse (trim_start (reverse t))) e)
  | inr (c, t, e, solid) ↦
      let filled : trim s ≢ [] =
        λ h. trim-cons c t solid (sym (ap (λ u. reverse (trim_start (reverse u))) e) ∙ h) in
      ((λ h. absurd (filled h)), λ h. absurd (cc (trim_start-IsBlank s h, e)))
]
