-- ===== src/Prelude/Text.antt =====
-- JavaScript strings as lists of UTF-16 code units, and the string methods that the packages call.
use Prim.Native.Nat.{ℕ, suc, ◌+◌, ◌-◌}
use Prim.Native.Char.{code}
use Prim.Native.String.{String}
use mathlib.Core.Path.{◌≡◌, refl}
use mathlib.Core.Logic.{◌↔◌}
use mathlib.Core.Bool.{Bool, true, false, ◌&&◌, ◌||◌}
use mathlib.Core.Option.{Option, none, some}
use mathlib.Core.List.{List, [], ◌∷◌, ◌++◌, reverse}
use native.Mathlib.Omega.{arith}
use predictor_common.Prelude.Lists.{any, length, replicate}
use predictor_common.Prelude.Tests.{leb, ◌==◌, if◌then◌else◌}

abbrev pub Text : Type 0
Text = List ℕ

-- The code units of a literal without characters outside the basic plane.
abbrev pub codes : String → Text
codes String.[] = []
codes (String.◌∷◌ c s) = code c ∷ codes s

-- `===` on strings.
abbrev pub text_eq : Text → Text → Bool
text_eq [] [] = true
text_eq [] (d ∷ t) = false
text_eq (c ∷ s) [] = false
text_eq (c ∷ s) (d ∷ t) = c == d && text_eq s t

-- Whitespace and line terminators, as `trim`, `\s` and number parsing read them.
abbrev pub is_space : ℕ → Bool
is_space c =
    (leb 9 c && leb c 13)
    || c == 32
    || c == 160
    || c == 5760
    || (leb 8192 c && leb c 8202)
    || c == 8232
    || c == 8233
    || c == 8239
    || c == 8287
    || c == 12288
    || c == 65279

abbrev pub trim_start : Text → Text
trim_start [] = []
trim_start (c ∷ s) = elim (is_space c) [ true ↦ trim_start s | false ↦ c ∷ s ]

abbrev pub trim : Text → Text
trim s = reverse (trim_start (reverse (trim_start s)))

abbrev pub starts_with : Text → Text → Bool
starts_with s [] = true
starts_with [] (p ∷ ps) = false
starts_with (c ∷ s) (p ∷ ps) = c == p && starts_with s ps

abbrev pub ends_with : Text → Text → Bool
ends_with s p = starts_with (reverse s) (reverse p)

-- `indexOf` of one code unit; `none` for -1.
abbrev pub index_of : Text → ℕ → Option ℕ
index_of [] x = none
index_of (c ∷ s) x = elim (c == x) [
  | true ↦ some 0
  | false ↦ elim (index_of s x) [ none ↦ none | some i ↦ some (suc i) ]
]

-- `includes` of a text.
abbrev pub includes : Text → Text → Bool
includes [] p = starts_with [] p
includes (c ∷ s) p = starts_with (c ∷ s) p || includes s p

-- `split` at one code unit.
abbrev pub split_cons : ℕ → List Text → List Text
split_cons c [] = (c ∷ []) ∷ []
split_cons c (p ∷ ps) = (c ∷ p) ∷ ps

abbrev pub split : ℕ → Text → List Text
split sep [] = [] ∷ []
split sep (c ∷ s) = elim (c == sep) [ true ↦ [] ∷ split sep s | false ↦ split_cons c (split sep s) ]

-- `join`.
abbrev pub join : Text → List Text → Text
join sep [] = []
join sep (p ∷ []) = p
join sep (p ∷ q ∷ ps) = p ++ (sep ++ join sep (q ∷ ps))

-- `padStart` with one code unit.
abbrev pub pad_start : Text → ℕ → ℕ → Text
pad_start s n c = replicate (n - length s) c ++ s

-- ASCII case mapping.
abbrev pub lower : ℕ → ℕ
lower c = if leb b'A' c && leb c b'Z' then c + 32 else c

pub text_eq_iff : (s t : Text) → (text_eq s t ≡ true) ↔ (s ≡ t)
text_eq_iff [] [] = ground arith
text_eq_iff [] (d ∷ t) = ground arith
text_eq_iff (c ∷ s) [] = ground arith
text_eq_iff (c ∷ s) (d ∷ t) = ground (arith, text_eq_iff s t)

-- `has` of a `Set` of names.
abbrev pub has : List Text → Text → Bool
has names name = any (λ n. text_eq n name) names

-- Each name once.
abbrev pub Distinct : List Text → Type 0
Distinct [] = Unit
Distinct (n ∷ names) = (has names n ≡ false) × Distinct names

text_eq_comm : (s t : Text) → text_eq s t ≡ text_eq t s
text_eq_comm s t = ground (arith, text_eq_iff s t, text_eq_iff t s)

has-append :
    (names : List Text) (n x : Text) → has (names ++ (n ∷ [])) x ≡ has names x || text_eq n x
has-append [] n x = ground arith
has-append (m ∷ names) n x = ground (arith, has-append names n x)

pub Distinct-append :
    (names : List Text) (n : Text)
    → has names n ≡ false
    → Distinct names
    → Distinct (names ++ (n ∷ []))
Distinct-append [] n fresh d = (refl, tt)
Distinct-append (m ∷ names) n fresh (e, d) = (
  ground (arith, has-append names n m, text_eq_comm m n),
  Distinct-append names n (ground arith) d,
)
