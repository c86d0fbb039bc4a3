-- ===== src/ChainErrors/Classify.antt =====
-- The classifier of packages/chain/chain-errors/src/index.ts.
use predictor_common.Prelude.Text.{Text}
use predictor_common.Prelude.{
  ◌≡◌, refl, ◌↔◌, ◌⊎◌, inl, inr, Bool, true, false, ◌||◌, List, [], ◌∷◌, any, Bool-cases,
  if◌then◌else◌, arith,
}
use predictor_common.ChainErrors.{
  Thrown, retryable, caused, permanent, error, value, is_retryable, Atom, test, transient_patterns,
  is_transient, classify,
}
use predictor_common.ChainErrors.Patterns.{Occurs, test_iff}

-- `err instanceof Error ? err.message : String(err)`.
abbrev pub message : Thrown → Text
message (retryable m) = m
message (caused m e) = m
message (permanent m) = m
message (error m) = m
message (value m) = m

-- One of the two classes of this package.
abbrev pub IsClassified : Thrown → Type 0
IsClassified (retryable m) = Unit
IsClassified (caused m e) = Unit
IsClassified (permanent m) = Unit
IsClassified (error m) = ⊥
IsClassified (value m) = ⊥

-- Some listed pattern occurs in the message.
abbrev pub AnyOccurs : List (List Atom) → Text → Type 0
AnyOccurs [] s = ⊥
AnyOccurs (ps ∷ more) s = Occurs ps s ⊎ AnyOccurs more s

abbrev pub IsTransient : Text → Type 0
IsTransient s = AnyOccurs transient_patterns s

or_iff : (a b : Bool) {P Q : Type 0} → (a ≡ true) ↔ P → (b ≡ true) ↔ Q → ((a || b) ≡ true) ↔ (P ⊎ Q)
or_iff true b p q = ((λ h. inl (p.0 refl)), λ h. refl)
or_iff false b p q = ((λ h. inr (q.0 h)), elim [ inl h ↦ cc (p.1 h) | inr h ↦ q.1 h ])

any_iff : (l : List (List Atom)) (s : Text) → (any (λ re. test re s) l ≡ true) ↔ AnyOccurs l s
any_iff [] s = ((λ h. cc), λ h. absurd h)
any_iff (ps ∷ more) s = or_iff (test ps s) _ (test_iff ps s) (any_iff more s)

is_transient_iff : (s : Text) → (is_transient s ≡ true) ↔ IsTransient s
unfolding is_transient
is_transient_iff s = any_iff transient_patterns s

module _ {P : Type 0} (b : Bool) (iff : (b ≡ true) ↔ P) (e f : Thrown)
    (plain : is_retryable f ≡ false) where
  -- An unclassified value is made retryable by the test alone.
  raw_iff :
      (is_retryable (if b then caused (message e) e else f) ≡ true)
      ↔ ((is_retryable f ≡ true) ⊎ ((⊥ → ⊥) × P))
  raw_iff = elim (Bool-cases b) [
    | inl hit ↦ ((λ _. inr ((λ h. h), iff.0 hit)), λ _. rw hit)
    | inr miss ↦ ((λ h. cc (rw miss at h)), elim [ inl h ↦ cc | inr p ↦ cc (iff.1 p.1) ])
  ]

-- What the classifier returns is retryable exactly when its argument already was, or when the
-- argument is of neither class and a transient pattern occurs in its message.
pub is_retryable-classify_iff :
    (e : Thrown)
    → (is_retryable (classify e) ≡ true)
      ↔ ((is_retryable e ≡ true) ⊎ ((IsClassified e → ⊥) × IsTransient (message e)))
unfolding classify
is_retryable-classify_iff (retryable m) = ((λ h. inl refl), λ h. refl)
is_retryable-classify_iff (caused m e) = ((λ h. inl refl), λ h. refl)
is_retryable-classify_iff (permanent m) = ((λ h. cc), elim [ inl h ↦ cc | inr p ↦ absurd (p.0 tt) ])
is_retryable-classify_iff (error m) =
    raw_iff (is_transient m) (is_transient_iff m) (error m) (error m) refl
is_retryable-classify_iff (value m) =
    raw_iff (is_transient m) (is_transient_iff m) (value m) (error m) refl

-- An error of the two classes comes back untouched, whatever its message says.
pub classify_classified : (e : Thrown) → IsClassified e → classify e ≡ e
unfolding classify
classify_classified (retryable m) h = refl
classify_classified (caused m e) h = refl
classify_classified (permanent m) h = refl
classify_classified (error m) h = absurd h
classify_classified (value m) h = absurd h

pub classify_idem : (e : Thrown) → classify (classify e) ≡ classify e
unfolding classify
classify_idem (retryable m) = refl
classify_idem (caused m e) = refl
classify_idem (permanent m) = refl
classify_idem (error m) = ground arith
classify_idem (value m) = ground arith

pub message-classify : (e : Thrown) → message (classify e) ≡ message e
unfolding classify
message-classify (retryable m) = refl
message-classify (caused m e) = refl
message-classify (permanent m) = refl
message-classify (error m) = ground arith
message-classify (value m) = ground arith
