-- ===== src/Squid/Substrate/Classes.antt =====
-- Which payloads `classifyOrigin` of packages/indexer/squid-common/src/substrate.ts takes for signed.
use mathlib.Core.Path.{subst}
use predictor_common.Prelude.Text.{Text, codes, text_eq_iff}
use predictor_common.Prelude.{◌≡◌, refl, sym, ap, ◌⊎◌, inl, inr, true, Bool-cases, if◌then◌else◌}
use predictor_common.Squid.Substrate.{
  Payload, undefined_value, null_value, scalar, text, object, Origin, unsigned, signed_hex,
  signed_id, text_of, is_kind, or_unsigned, signer_of, inner_of, classify_origin,
}

is_kind-text : (name : Text) (kind : Payload) → is_kind name kind ≡ true → kind ≡ text name
is_kind-text name (text s) h = ap text ((text_eq_iff s name).0 h)
is_kind-text name undefined_value h = absurd (cc h)
is_kind-text name null_value h = absurd (cc h)
is_kind-text name scalar h = absurd (cc h)
is_kind-text name (object kind value) h = absurd (cc h)

-- The payloads of signed origins.
pub data Signed : Payload → Origin → Type 0 where
  by_hex :
      (s : Text)
      → Signed
          (object (text (codes "system")) (object (text (codes "Signed")) (text s)))
          (signed_hex s)
  by_id :
      (s : Text)
      → Signed
          (object
            (text (codes "system"))
            (object (text (codes "Signed")) (object (text (codes "Id")) (text s))))
          (signed_id s)

-- A payload that is the value of an object of a kind.
guarded :
    (name : Text) (kind value : Payload) (origin : Origin) (P : Payload → Origin → Type 0)
    → ((origin ≡ unsigned) ⊎ P value origin)
    → ((if is_kind name kind then origin else unsigned) ≡ unsigned)
      ⊎ ((kind ≡ text name) × P value (if is_kind name kind then origin else unsigned))
guarded name kind value origin P h = elim (Bool-cases (is_kind name kind)) [
  | inl is ↦ rw is (elim h [ inl e ↦ inl e | inr p ↦ inr (is_kind-text name kind is, p) ])
  | inr other ↦ rw other (inl refl)
]

-- Which values of a `Signed` object name a signer.
data Signer : Payload → Origin → Type 0 where
  bare : (s : Text) → Signer (text s) (signed_hex s)
  tagged : (s : Text) → Signer (object (text (codes "Id")) (text s)) (signed_id s)

data IsText : Payload → Origin → Type 0 where
  is_text : (s : Text) → IsText (text s) (signed_id s)

text_of-IsText :
    (value : Payload)
    → (or_unsigned (text_of value) ≡ unsigned) ⊎ IsText value (or_unsigned (text_of value))
text_of-IsText (text s) = inr (is_text s)
text_of-IsText undefined_value = inl refl
text_of-IsText null_value = inl refl
text_of-IsText scalar = inl refl
text_of-IsText (object kind value) = inl refl

Signer-tagged :
    (kind value : Payload) (o : Origin)
    → kind ≡ text (codes "Id")
    → IsText value o
    → Signer (object kind value) o
Signer-tagged kind _ _ e (is_text s) =
    subst (λ k. Signer (object k (text s)) (signed_id s)) (sym e) (tagged s)

signer_of-Signer : (value : Payload) → (signer_of value ≡ unsigned) ⊎ Signer value (signer_of value)
signer_of-Signer (text s) = inr (bare s)
signer_of-Signer undefined_value = inl refl
signer_of-Signer null_value = inl refl
signer_of-Signer scalar = inl refl
signer_of-Signer (object kind value) =
    elim (guarded (codes "Id") kind value (or_unsigned (text_of value)) IsText
      (text_of-IsText value)) [
        | inl e ↦ inl e
        | inr (e, is) ↦ inr (Signer-tagged kind value _ e is)
      ]

data Inner : Payload → Origin → Type 0 where
  inner :
      {value : Payload} {o : Origin}
      → Signer value o
      → Inner (object (text (codes "Signed")) value) o

Inner-object :
    (kind value : Payload) (o : Origin)
    → kind ≡ text (codes "Signed")
    → Signer value o
    → Inner (object kind value) o
Inner-object kind value o e s = subst (λ k. Inner (object k value) o) (sym e) (inner s)

inner_of-Inner : (value : Payload) → (inner_of value ≡ unsigned) ⊎ Inner value (inner_of value)
inner_of-Inner (text s) = inl refl
inner_of-Inner undefined_value = inl refl
inner_of-Inner null_value = inl refl
inner_of-Inner scalar = inl refl
inner_of-Inner (object kind value) =
    elim (guarded (codes "Signed") kind value (signer_of value) Signer (signer_of-Signer value)) [
      | inl e ↦ inl e
      | inr (e, s) ↦ inr (Inner-object kind value _ e s)
    ]

Signed-Inner :
    (value : Payload) (o : Origin) → Inner value o → Signed (object (text (codes "system")) value) o
Signed-Inner _ _ (inner (bare s)) = by_hex s
Signed-Inner _ _ (inner (tagged s)) = by_id s

Signed-object :
    (kind value : Payload) (o : Origin)
    → kind ≡ text (codes "system")
    → Inner value o
    → Signed (object kind value) o
Signed-object kind value o e i =
    subst (λ k. Signed (object k value) o) (sym e) (Signed-Inner value o i)

-- Every payload is classified as unsigned or is one of the two signed shapes, with its signer.
pub classify_origin_cases :
    (origin : Payload)
    → (classify_origin origin ≡ unsigned) ⊎ Signed origin (classify_origin origin)
unfolding classify_origin
classify_origin_cases (text s) = inl refl
classify_origin_cases undefined_value = inl refl
classify_origin_cases null_value = inl refl
classify_origin_cases scalar = inl refl
classify_origin_cases (object kind value) =
    elim (guarded (codes "system") kind value (inner_of value) Inner (inner_of-Inner value)) [
      | inl e ↦ inl e
      | inr (e, i) ↦ inr (Signed-object kind value _ e i)
    ]

-- The two signed shapes are classified so.
pub Signed-classify_origin :
    (origin : Payload) (o : Origin) → Signed origin o → classify_origin origin ≡ o
unfolding classify_origin
Signed-classify_origin _ _ (by_hex s) = refl
Signed-classify_origin _ _ (by_id s) = refl
