-- ===== src/GitHooks/CommitMsg/Patterns.antt =====
-- That `CONVENTIONAL_RE` of packages/tooling/git-hooks/src/run.ts is decided by the model's matcher.
use predictor_common.Prelude.Text.{Text, text_eq, text_eq_iff, has}
use predictor_common.Prelude.{
  ℕ, ◌≡◌, refl, ap, ◌∙◌, ◌↔◌, inl, inr, Bool, true, false, ◌||◌, List, [], ◌∷◌, any, and_iff,
  or_iff,
}
use predictor_common.GitHooks.CommitMsg.{
  Part, one, many, parts_of, accepts, accepts_type, conventional_types, is_conventional,
}

-- The texts that a list of parts spells.
pub data Spells : List Part → Text → Type 0 where
  done : Spells [] []
  once :
      {k : ℕ → Bool} {c : ℕ} {parts : List Part} {s : Text}
      → k c ≡ true
      → Spells parts s
      → Spells (one k ∷ parts) (c ∷ s)
  last :
      {k : ℕ → Bool} {c : ℕ} {parts : List Part} {s : Text}
      → k c ≡ true
      → Spells parts s
      → Spells (many k ∷ parts) (c ∷ s)
  more :
      {k : ℕ → Bool} {c : ℕ} {parts : List Part} {s : Text}
      → k c ≡ true
      → Spells (many k ∷ parts) s
      → Spells (many k ∷ parts) (c ∷ s)

accepts_sound : (parts : List Part) (s : Text) → accepts parts s ≡ true → Spells parts s
unfolding accepts
accepts_sound [] [] h = done
accepts_sound [] (c ∷ s) h = cc
accepts_sound (one k ∷ parts) [] h = cc
accepts_sound (one k ∷ parts) (c ∷ s) h =
    let (here, later) = (and_iff (k c) (accepts parts s)).0 h in
    once here (accepts_sound parts s later)
accepts_sound (many k ∷ parts) [] h = cc
accepts_sound (many k ∷ parts) (c ∷ s) h =
    let (here, later) = (and_iff (k c) (accepts parts s || accepts (many k ∷ parts) s)).0 h in
    elim ((or_iff (accepts parts s) (accepts (many k ∷ parts) s)).0 later) [
      | inl ends ↦ last here (accepts_sound parts s ends)
      | inr goes ↦ more here (accepts_sound (many k ∷ parts) s goes)
    ]

accepts_complete : (parts : List Part) (s : Text) → Spells parts s → accepts parts s ≡ true
unfolding accepts
accepts_complete _ _ done = refl
accepts_complete _ _ (once {k} {c} {parts} {s} here h) =
    (and_iff (k c) (accepts parts s)).1 (here, accepts_complete parts s h)
accepts_complete _ _ (last {k} {c} {parts} {s} here h) =
    let later =
      (or_iff (accepts parts s) (accepts (many k ∷ parts) s)).1
        (inl (accepts_complete parts s h)) in
    (and_iff (k c) (accepts parts s || accepts (many k ∷ parts) s)).1 (here, later)
accepts_complete _ _ (more {k} {c} {parts} {s} here h) =
    let later =
      (or_iff (accepts parts s) (accepts (many k ∷ parts) s)).1
        (inr (accepts_complete (many k ∷ parts) s h)) in
    (and_iff (k c) (accepts parts s || accepts (many k ∷ parts) s)).1 (here, later)

-- One of the ways through the expression spells the text.
abbrev pub Conventional : Text → Type 0
Conventional s =
    (kind : Text) × (scope : Bool) × (bang : Bool) × (has conventional_types kind ≡ true)
    × Spells (parts_of kind scope bang) s

any-has :
    (s : Text) (kinds : List Text)
    → any (accepts_type s) kinds ≡ true
    → (kind : Text) × (has kinds kind ≡ true) × (accepts_type s kind ≡ true)
any-has s [] h = cc
any-has s (k ∷ kinds) h = elim ((or_iff (accepts_type s k) (any (accepts_type s) kinds)).0 h) [
  | inl here ↦ (k, (or_iff (text_eq k k) (has kinds k)).1 (inl ((text_eq_iff k k).1 refl)), here)
  | inr later ↦
      let (kind, found, e) = any-has s kinds later in
      (kind, (or_iff (text_eq k kind) (has kinds kind)).1 (inr found), e)
]

has-any :
    (s kind : Text) (kinds : List Text)
    → has kinds kind ≡ true
    → accepts_type s kind ≡ true
    → any (accepts_type s) kinds ≡ true
has-any s kind [] found h = cc
has-any s kind (k ∷ kinds) found h =
    (or_iff (accepts_type s k) (any (accepts_type s) kinds)).1
      (elim ((or_iff (text_eq k kind) (has kinds kind)).0 found) [
        | inl same ↦ inl (ap (accepts_type s) ((text_eq_iff k kind).0 same) ∙ h)
        | inr later ↦ inr (has-any s kind kinds later h)
      ])

or_left : (a b : Bool) → a ≡ true → (a || b) ≡ true
or_left a b h = (or_iff a b).1 (inl h)

or_right : (a b : Bool) → b ≡ true → (a || b) ≡ true
or_right a b h = (or_iff a b).1 (inr h)

-- One of the four ways through after a type.
accepts_type-any :
    (s kind : Text)
    → accepts_type s kind ≡ true
    → (scope : Bool) × (bang : Bool) × (accepts (parts_of kind scope bang) s ≡ true)
accepts_type-any s kind h = elim ((or_iff _ _).0 h) [
  | inl e ↦ (false, false, e)
  | inr h1 ↦ elim ((or_iff _ _).0 h1) [
    | inl e ↦ (false, true, e)
    | inr h2 ↦ elim ((or_iff _ _).0 h2) [ inl e ↦ (true, false, e) | inr e ↦ (true, true, e) ]
  ]
]

any-accepts_type :
    (s kind : Text) (scope bang : Bool)
    → accepts (parts_of kind scope bang) s ≡ true
    → accepts_type s kind ≡ true
any-accepts_type s kind false false e = or_left _ _ e
any-accepts_type s kind false true e =
    or_right (accepts (parts_of kind false false) s) _ (or_left _ _ e)
any-accepts_type s kind true false e =
    or_right (accepts (parts_of kind false false) s) _
      (or_right (accepts (parts_of kind false true) s) _ (or_left _ _ e))
any-accepts_type s kind true true e = or_right (accepts (parts_of kind false false) s) _ (
    or_right (accepts (parts_of kind false true) s) _
      (or_right (accepts (parts_of kind true false) s) _ e))

pub is_conventional_iff : (s : Text) → (is_conventional s ≡ true) ↔ Conventional s
unfolding is_conventional
is_conventional_iff s = (
  λ h.
      let (kind, found, e) = any-has s conventional_types h in
      let (scope, bang, spelt) = accepts_type-any s kind e in
      (kind, scope, bang, found, accepts_sound (parts_of kind scope bang) s spelt),
  λ (kind, scope, bang, found, spelt).
      has-any s kind conventional_types found
        (any-accepts_type s kind scope bang (accepts_complete (parts_of kind scope bang) s spelt)),
)
