-- ===== src/ChainErrors/Patterns.antt =====
-- The patterns of packages/chain/chain-errors/src/index.ts against what a regular expression means:
-- a match is a stretch of the text that the atoms spell one after the other.
use predictor_common.Prelude.Text.{Text, is_space}
use predictor_common.Prelude.{
  ℕ, ◌≡◌, refl, ap, ◌↔◌, ◌⊎◌, inl, inr, Bool, true, false, ◌&&◌, ◌||◌, List, [], ◌∷◌, ◌++◌,
}
use predictor_common.ChainErrors.{Atom, chr, opt, blanks, same_letter, match_here, test}

-- The stretches that a list of atoms spells.
pub data Spells : List Atom → Text → Type 0 where
  done : Spells [] []
  letter :
      {p c : ℕ} {ps : List Atom} {s : Text}
      → same_letter p c ≡ true
      → Spells ps s
      → Spells (chr p ∷ ps) (c ∷ s)
  absent : {p : ℕ} {ps : List Atom} {s : Text} → Spells ps s → Spells (opt p ∷ ps) s
  present :
      {p c : ℕ} {ps : List Atom} {s : Text}
      → same_letter p c ≡ true
      → Spells ps s
      → Spells (opt p ∷ ps) (c ∷ s)
  no_blank : {ps : List Atom} {s : Text} → Spells ps s → Spells (blanks ∷ ps) s
  blank :
      {c : ℕ} {ps : List Atom} {s : Text}
      → is_space c ≡ true
      → Spells (blanks ∷ ps) s
      → Spells (blanks ∷ ps) (c ∷ s)

-- The front of a text is such a stretch.
abbrev pub Front : List Atom → Text → Type 0
Front ps s = (mid : Text) × (rest : Text) × (s ≡ mid ++ rest) × Spells ps mid

-- Some stretch of the text is.
abbrev pub Occurs : List Atom → Text → Type 0
Occurs ps s =
    (before : Text) × (mid : Text) × (after : Text) × (s ≡ before ++ (mid ++ after)) × Spells ps mid

and-parts : (a b : Bool) → (a && b) ≡ true → (a ≡ true) × (b ≡ true)
and-parts true b h = (refl, h)
and-parts false b h = cc

or-parts : (a b : Bool) → (a || b) ≡ true → (a ≡ true) ⊎ (b ≡ true)
or-parts true b h = inl refl
or-parts false b h = inr h

module _ {p : ℕ} {ps : List Atom} {c : ℕ} {s : Text} where
  Front-letter : same_letter p c ≡ true → Front ps s → Front (chr p ∷ ps) (c ∷ s)
  Front-letter same (mid, rest, e, spelt) = (c ∷ mid, rest, ap (λ t. c ∷ t) e, letter same spelt)

  Front-present : same_letter p c ≡ true → Front ps s → Front (opt p ∷ ps) (c ∷ s)
  Front-present same (mid, rest, e, spelt) = (c ∷ mid, rest, ap (λ t. c ∷ t) e, present same spelt)

module _ {p : ℕ} {ps : List Atom} {s : Text} where
  Front-absent : Front ps s → Front (opt p ∷ ps) s
  Front-absent (mid, rest, e, spelt) = (mid, rest, e, absent spelt)

Front-no_blank : {ps : List Atom} {s : Text} → Front ps s → Front (blanks ∷ ps) s
Front-no_blank (mid, rest, e, spelt) = (mid, rest, e, no_blank spelt)

Front-blank :
    {ps : List Atom} {c : ℕ} {s : Text}
    → is_space c ≡ true
    → Front (blanks ∷ ps) s
    → Front (blanks ∷ ps) (c ∷ s)
Front-blank {c} space (mid, rest, e, spelt) = (c ∷ mid, rest, ap (λ t. c ∷ t) e, blank space spelt)

match_here_sound : (ps : List Atom) (s : Text) → match_here ps s ≡ true → Front ps s
unfolding match_here
match_here_sound [] s h = ([], s, refl, done)
match_here_sound (chr p ∷ ps) [] h = cc
match_here_sound (chr p ∷ ps) (c ∷ s) h =
    let (same, h') = and-parts (same_letter p c) (match_here ps s) h in
    Front-letter same (match_here_sound ps s h')
match_here_sound (opt p ∷ ps) [] h = Front-absent (match_here_sound ps [] h)
match_here_sound (opt p ∷ ps) (c ∷ s) h =
    elim (or-parts (match_here ps (c ∷ s)) (same_letter p c && match_here ps s) h) [
      | inl skipped ↦ Front-absent (match_here_sound ps (c ∷ s) skipped)
      | inr taken ↦
          let (same, h') = and-parts (same_letter p c) (match_here ps s) taken in
          Front-present same (match_here_sound ps s h')
    ]
match_here_sound (blanks ∷ ps) [] h = Front-no_blank (match_here_sound ps [] h)
match_here_sound (blanks ∷ ps) (c ∷ s) h =
    elim (or-parts (match_here ps (c ∷ s)) (is_space c && match_here (blanks ∷ ps) s) h) [
      | inl skipped ↦ Front-no_blank (match_here_sound ps (c ∷ s) skipped)
      | inr taken ↦
          let (space, h') = and-parts (is_space c) (match_here (blanks ∷ ps) s) taken in
          Front-blank space (match_here_sound (blanks ∷ ps) s h')
    ]

match_here-opt :
    (p : ℕ) (ps : List Atom) (s : Text) → match_here ps s ≡ true → match_here (opt p ∷ ps) s ≡ true
unfolding match_here
match_here-opt p ps [] h = h
match_here-opt p ps (c ∷ s) h = rw h

match_here-blanks :
    (ps : List Atom) (s : Text) → match_here ps s ≡ true → match_here (blanks ∷ ps) s ≡ true
unfolding match_here
match_here-blanks ps [] h = h
match_here-blanks ps (c ∷ s) h = rw h

or_right : (a b : Bool) → b ≡ true → (a || b) ≡ true
or_right true b h = refl
or_right false b h = h

match_here_complete :
    (ps : List Atom) (mid rest : Text) → Spells ps mid → match_here ps (mid ++ rest) ≡ true
unfolding match_here
match_here_complete ps mid rest done = refl
match_here_complete ps mid rest (letter {ps = qs} {s = t} same h) =
    rw (same, match_here_complete qs t rest h)
match_here_complete ps mid rest (absent {p = q} {ps = qs} h) =
    match_here-opt q qs (mid ++ rest) (match_here_complete qs mid rest h)
match_here_complete ps mid rest (present {p = q} {c = d} {ps = qs} {s = t} same h) =
    or_right (match_here qs (d ∷ (t ++ rest))) (same_letter q d && match_here qs (t ++ rest))
      (rw (same, match_here_complete qs t rest h))
match_here_complete ps mid rest (no_blank {ps = qs} h) =
    match_here-blanks qs (mid ++ rest) (match_here_complete qs mid rest h)
match_here_complete ps mid rest (blank {c = d} {ps = qs} {s = t} space h) =
    or_right (match_here qs (d ∷ (t ++ rest))) (is_space d && match_here (blanks ∷ qs) (t ++ rest))
      (rw (space, match_here_complete (blanks ∷ qs) t rest h))

Occurs-Front : (ps : List Atom) (s : Text) → Front ps s → Occurs ps s
Occurs-Front ps s (mid, rest, e, spelt) = ([], mid, rest, e, spelt)

Occurs-cons : (ps : List Atom) (c : ℕ) (s : Text) → Occurs ps s → Occurs ps (c ∷ s)
Occurs-cons ps c s (before, mid, after, e, spelt) =
    (c ∷ before, mid, after, ap (λ t. c ∷ t) e, spelt)

test_sound : (ps : List Atom) (s : Text) → test ps s ≡ true → Occurs ps s
unfolding test
test_sound ps [] h = Occurs-Front ps [] (match_here_sound ps [] h)
test_sound ps (c ∷ s) h = elim (or-parts (match_here ps (c ∷ s)) (test ps s) h) [
  | inl found ↦ Occurs-Front ps (c ∷ s) (match_here_sound ps (c ∷ s) found)
  | inr later ↦ Occurs-cons ps c s (test_sound ps s later)
]

test-Front : (ps : List Atom) (s : Text) → match_here ps s ≡ true → test ps s ≡ true
unfolding test
test-Front ps [] h = h
test-Front ps (c ∷ s) h = rw h

test_complete :
    (ps : List Atom) (before mid after : Text)
    → Spells ps mid
    → test ps (before ++ (mid ++ after)) ≡ true
unfolding test
test_complete ps [] mid after spelt =
    test-Front ps (mid ++ after) (match_here_complete ps mid after spelt)
test_complete ps (c ∷ before) mid after spelt =
    or_right (match_here ps (c ∷ (before ++ (mid ++ after)))) (test ps (before ++ (mid ++ after)))
      (test_complete ps before mid after spelt)

-- The matcher answers true exactly when some stretch of the text is spelled by the pattern, letter by
-- letter in either case, with each optional letter there or not and any run of blanks at a `\s*`.
pub test_iff : (ps : List Atom) (s : Text) → (test ps s ≡ true) ↔ Occurs ps s
test_iff ps s = (
  test_sound ps s,
  λ (before, mid, after, e, spelt). rw e (test_complete ps before mid after spelt),
)
