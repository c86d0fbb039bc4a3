-- ===== src/Squid/SpecId/RoundTrip.antt =====
-- Spec ids of packages/indexer/squid-common/src/spec.ts are read back.
use predictor_common.Prelude.Text.{Text}
use predictor_common.Prelude.Digits.{
  value, is_digit, IsDigit, decimal, value-decimal, decimal-IsDigit, decimal-ne-nil,
}
use predictor_common.Prelude.{
  ℕ, ◌<◌, ◌^◌, ◌≡◌, ◌≢◌, refl, ap, true, false, ◌&&◌, ◌==◌, none, some, [], ◌∷◌, ◌++◌, all, All,
  Bool-cases, Option-cases, inl, inr, ◌⊎◌, and_iff, ==_iff, arith,
}
use predictor_common.Squid.SpecId.{is_version, match_version, parse_spec_id}

all-IsDigit : (s : Text) → All IsDigit s → all is_digit s ≡ true
all-IsDigit [] h = refl
all-IsDigit (c ∷ s) (h, hs) = ground (arith, all-IsDigit s hs)

is_version-digits : (s : Text) → s ≢ [] → All IsDigit s → is_version s ≡ true
is_version-digits [] h d = absurd (h refl)
is_version-digits (c ∷ s) h d = all-IsDigit (c ∷ s) d

-- The separator is no digit.
all-separator : (s ds : Text) → all is_digit (s ++ b'@' ∷ ds) ≡ false
all-separator [] ds = refl
all-separator (c ∷ s) ds = ground (arith, all-separator s ds)

is_version-separator : (s ds : Text) → is_version (s ++ b'@' ∷ ds) ≡ false
is_version-separator [] ds = refl
is_version-separator (c ∷ s) ds = all-separator (c ∷ s) ds

match_version-append :
    (name ds : Text) → is_version ds ≡ true → match_version (name ++ b'@' ∷ ds) ≡ some (name, ds)
unfolding match_version
match_version-append [] ds h = ground arith
match_version-append (c ∷ name) ds h =
    ground (arith, match_version-append name ds, is_version-separator name ds)

-- Where a double has the version exactly, the id that is made of any name, `@` and any version reads
-- back as both, also where the name holds an `@` of its own.
pub parse_spec_id-make :
    (to_number : ℕ → ℕ)
    → ((n : ℕ) → n < 2 ^ 53 → to_number n ≡ n)
    → (name : Text) (version : ℕ) → version < 2 ^ 53
    → parse_spec_id to_number (name ++ b'@' ∷ decimal version)
      ≡ record { spec_name = name; spec_version = some version }
unfolding parse_spec_id
parse_spec_id-make to_number exact name version h =
    let digits =
      is_version-digits (decimal version) (decimal-ne-nil version) (decimal-IsDigit version) in
    rw (match_version-append name (decimal version) digits, value-decimal version, exact version h)
      refl

match_version_sound :
    (s name ds : Text)
    → match_version s ≡ some (name, ds)
    → (s ≡ name ++ b'@' ∷ ds) × (is_version ds ≡ true)
unfolding match_version
match_version_sound [] name ds h = absurd (cc h)
match_version_sound (c ∷ s) name ds h = elim (Bool-cases (c == b'@' && is_version s)) [
  | inl e ↦
      let here : match_version (c ∷ s) ≡ some ([], s) = ground arith in
      let (at, version) = (and_iff (c == b'@') (is_version s)).0 e in
      let same : c ≡ b'@' = (==_iff c b'@').0 at in (ground (arith, here), ground (arith, here))
  | inr e ↦ elim (Option-cases (match_version s)) [
    | inl f ↦ let nowhere : match_version (c ∷ s) ≡ none = ground arith in absurd (cc (nowhere, h))
    | inr ((before, digits), f) ↦
        let later : match_version (c ∷ s) ≡ some (c ∷ before, digits) = ground arith in
        let (shape, version) = match_version_sound s before digits f in
        (ground (arith, later), ground (arith, later))
  ]
]

-- An id reads as a version exactly when it ends with `@` and digits, and then the name is all before;
-- any other reads as a name alone.
pub parse_spec_id_cases :
    (to_number : ℕ → ℕ) (s : Text)
    → ((name ds : Text) × (s ≡ name ++ b'@' ∷ ds)
        × (is_version ds ≡ true)
        × (parse_spec_id to_number s
            ≡ record { spec_name = name; spec_version = some (to_number (value ds)) }))
      ⊎ (((name ds : Text) → is_version ds ≡ true → s ≢ name ++ b'@' ∷ ds)
          × (parse_spec_id to_number s ≡ record { spec_name = s; spec_version = none }))
unfolding parse_spec_id
parse_spec_id_cases to_number s = elim (Option-cases (match_version s)) [
  | inl e ↦ inr (
    (λ name ds digits eq.
        absurd (cc (e, match_version-append name ds digits, ap match_version eq))),
    rw e refl,
  )
  | inr ((name, ds), e) ↦
      let (shape, digits) = match_version_sound s name ds e in
      inl (name, ds, shape, digits, rw e refl)
]
