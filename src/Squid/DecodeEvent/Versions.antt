-- ===== src/Squid/DecodeEvent/Versions.antt =====
-- The versions that packages/indexer/squid-common/src/decodeEvent.ts collects and sorts.
use predictor_common.Prelude.Text.{Text, has, text_eq, text_eq_iff}
use predictor_common.Prelude.{
  ℕ, ◌≤◌, ◌≡◌, refl, sym, ap, ◌∙◌, ◌↔◌, ◌⊎◌, inl, inr, true, ◌==◌, ==_iff, Bool-cases, Option, none,
  some, List, [], ◌∷◌, ◌++◌, any, or_iff, All, leb, arith,
}
use predictor_common.Squid.DecodeEvent.{
  version_of, add_version, add_matched, add_keys, insert_version, sort_versions,
}

-- A version is among those of a list.
abbrev pub Among : List ℕ → ℕ → Type 0
Among versions v = any (λ w. w == v) versions ≡ true

pub Among-cons : (x : ℕ) (xs : List ℕ) (v : ℕ) → Among (x ∷ xs) v ↔ ((x ≡ v) ⊎ Among xs v)
Among-cons x xs v = ground (arith, or_iff (x == v) (any (λ w. w == v) xs), ==_iff x v)

Among-snoc : (xs : List ℕ) (x v : ℕ) → Among (xs ++ (x ∷ [])) v ↔ (Among xs v ⊎ (x ≡ v))
Among-snoc [] x v = ground (arith, Among-cons x [] v)
Among-snoc (y ∷ xs) x v =
    ground (arith, Among-cons y (xs ++ (x ∷ [])) v, Among-cons y xs v, Among-snoc xs x v)

Among-here : (xs : List ℕ) (x v : ℕ) → Among xs x → x ≡ v → Among xs v
Among-here xs x v h e = ap (λ u. any (λ w. w == u) xs) (sym e) ∙ h

Among-add_version : (xs : List ℕ) (x v : ℕ) → Among (add_version xs x) v ↔ (Among xs v ⊎ (x ≡ v))
Among-add_version xs x v = elim (Bool-cases (any (λ w. w == x) xs)) [
  | inl known ↦ rw known ((λ h. inl h), elim [ inl h ↦ h | inr e ↦ Among-here xs x v known e ])
  | inr new ↦ rw new (Among-snoc xs x v)
]

-- A key that gives the version.
abbrev pub Named : List Text → ℕ → Type 0
Named keys v = (key : Text) × (has keys key ≡ true) × (version_of key ≡ some v)

Named-later : (key : Text) (keys : List Text) (v : ℕ) → Named keys v → Named (key ∷ keys) v
Named-later key keys v (k, found, e) = (k, (or_iff (text_eq key k) (has keys k)).1 (inr found), e)

Named-here :
    (key : Text) (keys : List Text) (v : ℕ) → version_of key ≡ some v → Named (key ∷ keys) v
Named-here key keys v e =
    (key, (or_iff (text_eq key key) (has keys key)).1 (inl ((text_eq_iff key key).1 refl)), e)

Named-cons :
    (key : Text) (keys : List Text) (v : ℕ)
    → Named (key ∷ keys) v
    → (version_of key ≡ some v) ⊎ Named keys v
Named-cons key keys v (k, found, e) = elim ((or_iff (text_eq key k) (has keys k)).0 found) [
  | inl same ↦ inl (ap version_of ((text_eq_iff key k).0 same) ∙ e)
  | inr later ↦ inr (k, later, e)
]

Among-add_matched :
    (xs : List ℕ) (o : Option ℕ) (v : ℕ) → Among (add_matched xs o) v ↔ (Among xs v ⊎ (o ≡ some v))
Among-add_matched xs none v = ((λ h. inl h), elim [ inl h ↦ h | inr e ↦ cc e ])
Among-add_matched xs (some x) v = (
  (λ h. elim ((Among-add_version xs x v).0 h) [ inl a ↦ inl a | inr e ↦ inr (ap some e) ]),
  elim [
    | inl a ↦ (Among-add_version xs x v).1 (inl a)
    | inr e ↦ let same : x ≡ v = cc e in (Among-add_version xs x v).1 (inr same)
  ],
)

pub Among-add_keys :
    (xs : List ℕ) (keys : List Text) (v : ℕ)
    → Among (add_keys xs keys) v ↔ (Among xs v ⊎ Named keys v)
unfolding add_keys
Among-add_keys xs [] v = ((λ h. inl h), elim [ inl h ↦ h | inr (k, found, e) ↦ cc found ])
Among-add_keys xs (key ∷ keys) v =
    let rest = Among-add_keys (add_matched xs (version_of key)) keys v in
    let here = Among-add_matched xs (version_of key) v in
    (
      (λ h. elim (rest.0 h) [
        | inl a ↦ elim (here.0 a) [ inl b ↦ inl b | inr e ↦ inr (Named-here key keys v e) ]
        | inr named ↦ inr (Named-later key keys v named)
      ]),
      elim [
        | inl a ↦ rest.1 (inl (here.1 (inl a)))
        | inr named ↦ elim (Named-cons key keys v named) [
          | inl e ↦ rest.1 (inl (here.1 (inr e)))
          | inr later ↦ rest.1 (inr later)
        ]
      ],
    )

Among-insert_version :
    (x : ℕ) (xs : List ℕ) (v : ℕ) → Among (insert_version x xs) v ↔ ((x ≡ v) ⊎ Among xs v)
unfolding insert_version
Among-insert_version x [] v = Among-cons x [] v
Among-insert_version x (y ∷ xs) v = elim (Bool-cases (leb y x)) [
  | inl front ↦ rw front (Among-cons x (y ∷ xs) v)
  | inr behind ↦ rw behind (
      ground (
        arith,
        Among-cons y (insert_version x xs) v,
        Among-cons y xs v,
        Among-insert_version x xs v,
      ))
]

pub Among-sort_versions : (xs : List ℕ) (v : ℕ) → Among (sort_versions xs) v ↔ Among xs v
unfolding sort_versions
Among-sort_versions [] v = ((λ h. h), λ h. h)
Among-sort_versions (x ∷ xs) v = ground (
  arith,
  Among-insert_version x (sort_versions xs) v,
  Among-cons x xs v,
  Among-sort_versions xs v,
)

-- Each is at least those behind it.
abbrev pub Descending : List ℕ → Type 0
Descending [] = Unit
Descending (v ∷ versions) = All (λ w. w ≤ v) versions × Descending versions

All-le : (a b : ℕ) (xs : List ℕ) → a ≤ b → All (λ w. w ≤ a) xs → All (λ w. w ≤ b) xs
All-le a b [] h all = tt
All-le a b (x ∷ xs) h (here, all) = (omega (arith, here), All-le a b xs h all)

All-insert_version :
    (x b : ℕ) (xs : List ℕ) → x ≤ b → All (λ w. w ≤ b) xs → All (λ w. w ≤ b) (insert_version x xs)
unfolding insert_version
All-insert_version x b [] h all = (h, tt)
All-insert_version x b (y ∷ xs) h (here, all) = elim (Bool-cases (leb y x)) [
  | inl front ↦ rw front (h, (here, all))
  | inr behind ↦ rw behind (here, All-insert_version x b xs h all)
]

insert_version-Descending : (x : ℕ) (xs : List ℕ) → Descending xs → Descending (insert_version x xs)
unfolding insert_version
insert_version-Descending x [] h = (tt, tt)
insert_version-Descending x (y ∷ xs) (here, h) = elim (Bool-cases (leb y x)) [
  | inl front ↦
      let le : y ≤ x = ground (arith, front) in rw front ((le, All-le y x xs le here), (here, h))
  | inr behind ↦
      let le : x ≤ y = ground (arith, behind) in
      rw behind (All-insert_version x y xs le here, insert_version-Descending x xs h)
]

pub sort_versions-Descending : (xs : List ℕ) → Descending (sort_versions xs)
unfolding sort_versions
sort_versions-Descending [] = tt
sort_versions-Descending (x ∷ xs) =
    insert_version-Descending x (sort_versions xs) (sort_versions-Descending xs)
