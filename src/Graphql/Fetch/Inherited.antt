-- ===== src/Graphql/Fetch/Inherited.antt =====
-- When `resolveDocument` in packages/web/graphql-client/src/fetchGraphql.ts throws: a document that it
-- reaches spreads a name that the plain record only inherits.
use mathlib.Core.Path.{subst}
use predictor_common.Prelude.Text.{Text, text_eq, text_eq_iff, has, Distinct}
use predictor_common.Prelude.Dict.{get, text_key}
use predictor_common.Prelude.{
  ◌≡◌, refl, sym, ap, ◌∙◌, ◌↔◌, ◌⊎◌, inl, inr, Bool, true, false, ◌||◌, Option, none, some, List,
  [], ◌∷◌, Bool-cases, Option-cases,
}
use predictor_common.Graphql.Fragments.{spread_names, document_of}
use predictor_common.Graphql.Fragments.Visits.{Reached, spread, nested}
use predictor_common.Graphql.Fragments.Registry.{keys, collect_lem, resolve_lem}
use predictor_common.Graphql.Fetch.{
  FragmentSource, registry, plain_map, inherited_names, is_inherited, reads_inherited,
  collects_inherited, no_match_all, assembled, resolve_document,
}

-- A name that the query spreads, itself or in a definition that it reaches, is no entry of the record,
-- but one that every plain record inherits.
abbrev pub SpreadsInherited : Text → Option FragmentSource → Type 0
SpreadsInherited query (some (plain_map definitions)) =
    (name : Text) × Reached (λ n. get definitions n) query name
    × (get definitions name ≡ none)
    × (has inherited_names name ≡ true)
SpreadsInherited query (some (registry definitions)) = ⊥
SpreadsInherited query none = ⊥

or_true : (a b : Bool) → b ≡ true → (a || b) ≡ true
or_true true b h = refl
or_true false b h = h

module _ (definitions : List (Text × Text)) where
  -- One such name among these.
  abbrev IsOne : List Text → Type 0
  IsOne names =
      (name : Text) × (has names name ≡ true)
      × (get definitions name ≡ none)
      × (has inherited_names name ≡ true)

  is_inherited_iff :
      (name : Text)
      → (is_inherited definitions name ≡ true)
        ↔ ((get definitions name ≡ none) × (has inherited_names name ≡ true))
  is_inherited_iff name = elim (Option-cases (get definitions name)) [
    | inl missing ↦ rw (missing, is_inherited) (λ h. (refl, h), λ h. h.1)
    | inr (own, e) ↦ rw (e, is_inherited) (λ h. absurd (cc h), λ h. absurd (cc h.0))
  ]

  reads_inherited-IsOne :
      (names : List Text) → reads_inherited definitions names ≡ true → IsOne names
  reads_inherited-IsOne [] h = absurd (cc h)
  reads_inherited-IsOne (n ∷ names) h = elim (Bool-cases (is_inherited definitions n)) [
    | inl here ↦
        let (missing, inherits) = (is_inherited_iff n).0 here in
        (n, rw ((text_eq_iff n n).1 refl) refl, missing, inherits)
    | inr other ↦
        let (name, among, missing, inherits) = reads_inherited-IsOne names (rw other at h) in
        (name, or_true (text_eq n name) (has names name) among, missing, inherits)
  ]

  IsOne-reads_inherited :
      (names : List Text) (name : Text)
      → has names name ≡ true
      → is_inherited definitions name ≡ true
      → reads_inherited definitions names ≡ true
  IsOne-reads_inherited [] name among h = absurd (cc among)
  IsOne-reads_inherited (n ∷ names) name among h = elim (Bool-cases (text_eq n name)) [
    | inl same ↦
        rw (subst (λ x. is_inherited definitions x ≡ true) (sym ((text_eq_iff n name).0 same)) h)
          refl
    | inr other ↦
        or_true (is_inherited definitions n) (reads_inherited definitions names)
          (IsOne-reads_inherited names name (rw other at among) h)
  ]

  -- A collected definition that spreads one.
  abbrev CollectsOne : List (Text × Text) → Type 0
  CollectsOne collected =
      (parent document : Text) × (get collected parent ≡ some document)
      × IsOne (spread_names document)

  get-has :
      (entries : List (Text × Text)) (name document : Text)
      → get entries name ≡ some document
      → has (keys entries) name ≡ true
  get-has [] name document h = absurd (cc h)
  get-has ((n, d) ∷ rest) name document h = elim (Bool-cases (text_eq n name)) [
    | inl same ↦ rw same refl
    | inr other ↦ rw other (get-has rest name document (rw other at h))
  ]

  collects_inherited-CollectsOne :
      (entries : List (Text × Text))
      → Distinct (keys entries)
      → collects_inherited definitions entries ≡ true
      → CollectsOne entries
  collects_inherited-CollectsOne [] distinct h = absurd (cc h)
  collects_inherited-CollectsOne ((n, d) ∷ rest) (fresh, distinct) h =
      elim (Bool-cases (reads_inherited definitions (spread_names d))) [
        | inl here ↦
            (n, d, rw ((text_eq_iff n n).1 refl) refl, reads_inherited-IsOne (spread_names d) here)
        | inr other ↦
            let (parent, document, found, one) =
              collects_inherited-CollectsOne rest distinct (rw other at h) in
            let apart : text_eq n parent ≡ false = elim (Bool-cases (text_eq n parent)) [
              | inr differs ↦ differs
              | inl same ↦
                  absurd
                    (cc (get-has rest parent document found, fresh, (text_eq_iff n parent).0 same))
            ] in
            (parent, document, rw apart found, one)
      ]

  CollectsOne-collects_inherited :
      (entries : List (Text × Text)) (parent document : Text)
      → get entries parent ≡ some document
      → reads_inherited definitions (spread_names document) ≡ true
      → collects_inherited definitions entries ≡ true
  CollectsOne-collects_inherited [] parent document found h = absurd (cc found)
  CollectsOne-collects_inherited ((n, d) ∷ rest) parent document found h =
      elim (Bool-cases (text_eq n parent)) [
        | inl same ↦ let is : d ≡ document = cc (rw same at found) in rw (is, h) refl
        | inr other ↦
            or_true (reads_inherited definitions (spread_names d))
              (collects_inherited definitions rest)
              (CollectsOne-collects_inherited rest parent document (rw other at found) h)
      ]

  module _ (query : Text) (collected : List (Text × Text))
      (exactly : (name definition : Text)
        → (get collected name ≡ some definition) ↔ (
            (get definitions name ≡ some definition) × Reached (λ n. get definitions n) query name))
      (distinct : Distinct (keys collected)) where
    abbrev spreads : Bool
    spreads =
        reads_inherited definitions (spread_names query) || collects_inherited definitions collected

    spreads-SpreadsInherited :
        spreads ≡ true → SpreadsInherited query (some (plain_map definitions))
    spreads-SpreadsInherited h =
        elim (Bool-cases (reads_inherited definitions (spread_names query))) [
          | inl here ↦
              let (name, among, missing, inherits) =
                reads_inherited-IsOne (spread_names query) here in
              (name, spread name among, missing, inherits)
          | inr other ↦
              let (parent, document, found, one) =
                collects_inherited-CollectsOne collected distinct (rw other at h) in
              let (name, among, missing, inherits) = one in
              let (own, reached) = (exactly parent document).0 found in
              (name, nested parent document name reached own among, missing, inherits)
        ]

    SpreadsInherited-spreads :
        (name : Text)
        → Reached (λ n. get definitions n) query name
        → is_inherited definitions name ≡ true
        → spreads ≡ true
    SpreadsInherited-spreads _ (spread name among) h =
        rw (IsOne-reads_inherited (spread_names query) name among h) refl
    SpreadsInherited-spreads _ (nested parent document name reached own among) h =
        or_true (reads_inherited definitions (spread_names query))
          (collects_inherited definitions collected)
          (CollectsOne-collects_inherited collected parent document
            ((exactly parent document).1 (own, reached))
            (IsOne-reads_inherited (spread_names document) name among h))

    assembled-cases :
        (SpreadsInherited query (some (plain_map definitions))
          × (assembled definitions query (some collected) ≡ some (inl no_match_all)))
        ⊎ ((SpreadsInherited query (some (plain_map definitions)) → ⊥)
            × (assembled definitions query (some collected)
                ≡ some (inr (document_of query collected))))
    assembled-cases = elim (Bool-cases spreads) [
      | inl throws ↦ inl (spreads-SpreadsInherited throws, rw throws refl)
      | inr fine ↦ inr (
        λ (name, reached, missing, inherits). cc (
          SpreadsInherited-spreads name reached ((is_inherited_iff name).1 (missing, inherits)),
          fine,
        ),
        rw fine refl,
      )
    ]

-- The collection of the fragments always ends, and throws just where such a name is spread.
pub resolve_document-cases :
    (query : Text) (fragments : Option FragmentSource)
    → (SpreadsInherited query fragments
        × (resolve_document query fragments ≡ some (inl no_match_all)))
      ⊎ ((SpreadsInherited query fragments → ⊥)
          × (document : Text) × (resolve_document query fragments ≡ some (inr document)))
unfolding resolve_document
resolve_document-cases query none = inr (λ h. h, query, refl)
resolve_document-cases query (some (registry definitions)) =
    let (collected, e, exactly, distinct) = resolve_lem definitions query in
    inr (λ h. h, document_of query collected, rw e refl)
resolve_document-cases query (some (plain_map definitions)) =
    let (collected, e, exactly, distinct) = collect_lem definitions query in
    elim (assembled-cases definitions query collected exactly distinct) [
      | inl (spreads, throws) ↦ inl (spreads, ap (assembled definitions query) e ∙ throws)
      | inr (plain, document) ↦
          inr (plain, document_of query collected, ap (assembled definitions query) e ∙ document)
    ]
