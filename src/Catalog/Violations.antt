-- ===== src/Catalog/Violations.antt =====
-- When scripts/check-catalog.mjs passes.
use mathlib.Core.Path.{subst}
use predictor_common.Prelude.Text.{Text, codes, text_eq, text_eq_iff, has}
use predictor_common.Prelude.{
  ◌≡◌, ◌≢◌, ◌↔◌, ◌⊎◌, refl, sym, ap, ◌∙◌, true, false, Bool-cases, Option, none, some, Option-cases,
  List, [], ◌∷◌, ◌++◌, All, length, ltb, inl, inr, if◌then◌else◌, arith,
}
use predictor_common.Catalog.{
  GroupEntry, Manifest, package_manifests, Package, Violation, catalog_names, is_violation,
  field_violations, package_violations, violations, exit_of, check_catalog,
}

some-injective {ℓ} : {A : Type ℓ} {a b : A} → some a ≡ some b → a ≡ b
some-injective h = cc h

both_nil : (xs ys : List Violation) → xs ++ ys ≡ [] → (xs ≡ []) × (ys ≡ [])
both_nil [] ys h = (refl, h)
both_nil (x ∷ xs) ys h = absurd (cc h)

module _ (catalog : List Text) where
  -- The catalog does not own the dependency, or it is referenced as `catalog:`.
  abbrev pub Refers : Text × Text → Type 0
  Refers (name, range) = (has catalog name ≡ false) ⊎ (range ≡ codes "catalog:")

  abbrev pub IsClean : Package → Type 0
  IsClean pkg = All Refers pkg.dependencies × All Refers pkg.dev_dependencies

  Refers-iff : (entry : Text × Text) → (is_violation catalog entry ≡ false) ↔ Refers entry
  Refers-iff (name, range) = elim (Bool-cases (has catalog name)) [
    | inr foreign ↦ ((λ h. inl foreign), λ h. rw foreign refl)
    | inl owned ↦ elim (Bool-cases (text_eq range (codes "catalog:"))) [
      | inl same ↦
          ((λ h. inr ((text_eq_iff range (codes "catalog:")).0 same)), λ h. rw (owned, same) refl)
      | inr other ↦ (
        (λ h. absurd (cc (sym (is-true owned other) ∙ h))),
        elim [
          | inl foreign ↦ absurd (cc (sym owned ∙ foreign))
          | inr same ↦ absurd (cc (sym ((text_eq_iff range (codes "catalog:")).1 same) ∙ other))
        ],
      )
    ]
  ]
    where
      is-true :
          has catalog name ≡ true
          → text_eq range (codes "catalog:") ≡ false
          → is_violation catalog (name, range) ≡ true
      is-true owned other = rw (owned, other) refl

  field_violations_iff :
      (display field : Text) (entries : List (Text × Text))
      → (field_violations catalog display field entries ≡ []) ↔ All Refers entries
  field_violations_iff display field [] = ((λ h. tt), λ h. refl)
  field_violations_iff display field (entry ∷ entries) =
      let (sound, complete) = field_violations_iff display field entries in
      elim (Bool-cases (is_violation catalog entry)) [
        | inl bad ↦ (
          (λ h. absurd (cc (rw bad at h))),
          λ (h, rest). absurd (cc (sym bad ∙ (Refers-iff entry).1 h)),
        )
        | inr good ↦ (
          (λ h. ((Refers-iff entry).0 good, sound (rw good at h))),
          λ (h, rest). rw good (complete rest),
        )
      ]

  package_violations_iff :
      (display : Text) (pkg : Package) → (package_violations catalog display pkg ≡ []) ↔ IsClean pkg
  package_violations_iff display pkg =
      let (sound, complete) =
        field_violations_iff display (codes "dependencies") pkg.dependencies in
      let (sound', complete') =
        field_violations_iff display (codes "devDependencies") pkg.dev_dependencies in
      (
        (λ h. let (first, second) = both_nil _ _ h in (sound first, sound' second)),
        λ (h, h'). rw (complete h, complete' h') refl,
      )

  module _ (parse : Text → Option Package) where
    abbrev pub Passes : Manifest → Type 0
    Passes m = (pkg : Package) × (parse m.content ≡ some pkg) × IsClean pkg

    fails :
        (m : Manifest) (rest : List Manifest)
        → parse m.content ≡ none
        → violations catalog parse (m ∷ rest) ≡ none
    unfolding violations
    fails m rest e = ground arith

    finds :
        (m : Manifest) (rest : List Manifest) (pkg : Package) (found : List Violation)
        → parse m.content ≡ some pkg
        → violations catalog parse rest ≡ some found
        → violations catalog parse (m ∷ rest)
          ≡ some (package_violations catalog m.display pkg ++ found)
    unfolding violations
    finds m rest pkg found e f = ground arith

    fails_later :
        (m : Manifest) (rest : List Manifest)
        → violations catalog parse rest ≡ none
        → violations catalog parse (m ∷ rest) ≡ none
    unfolding violations
    fails_later m rest f = ground arith

    violations_iff :
        (manifests : List Manifest)
        → (violations catalog parse manifests ≡ some []) ↔ All Passes manifests
    unfolding violations
    violations_iff [] = ((λ h. tt), λ h. refl)
    violations_iff (m ∷ rest) =
        let (sound, complete) = violations_iff rest in
        elim (Option-cases (parse m.content)) [
          | inl e ↦ (
            (λ h. absurd (cc (sym (fails m rest e) ∙ h))),
            λ (passes, _). absurd (cc (sym e ∙ passes.1)),
          )
          | inr (pkg, e) ↦ elim (Option-cases (violations catalog parse rest)) [
            | inl f ↦ (
              (λ h. absurd (cc (sym (fails_later m rest f) ∙ h))),
              λ (_, later). absurd (cc (sym f ∙ complete later)),
            )
            | inr (found, f) ↦ (
              (λ h.
                  let (own, none_later) =
                    both_nil _ _ (some-injective (sym (finds m rest pkg found e f) ∙ h)) in
                  (
                    (pkg, e, (package_violations_iff m.display pkg).0 own),
                    sound (f ∙ ap (λ l. some l) none_later),
                  )),
              λ ((pkg', e', clean), later).
                  let same : pkg' ≡ pkg = some-injective (sym e' ∙ e) in
                  let own = (package_violations_iff m.display pkg).1 (subst IsClean same clean) in
                  let none_later : found ≡ [] = some-injective (sym f ∙ complete later) in
                  finds m rest pkg found e f ∙ rw (own, none_later) refl,
            )
          ]
        ]

exit_of_iff : (o : Option (List Violation)) → (exit_of o ≡ 0) ↔ (o ≡ some [])
exit_of_iff none = ((λ h. absurd (omega arith)), λ h. absurd (cc h))
exit_of_iff (some []) = ((λ h. refl), λ h. refl)
exit_of_iff (some (v ∷ found)) = ((λ h. absurd (omega arith)), λ h. absurd (cc h))

exit_code_iff :
    (catalog : List Text) (parse : Text → Option Package) (manifests : List Manifest)
    → ((if ltb 0 (length catalog) then exit_of (violations catalog parse manifests) else 1) ≡ 0)
      ↔ ((catalog ≢ []) × All (Passes catalog parse) manifests)
exit_code_iff [] parse manifests = ((λ h. absurd (omega arith)), λ (h, _). absurd (h refl))
exit_code_iff (name ∷ names) parse manifests =
    let (sound, complete) = violations_iff (name ∷ names) parse manifests in
    let (zero_exit, exits) = exit_of_iff (violations (name ∷ names) parse manifests) in
    let owns : ltb 0 (length (name ∷ names)) ≡ true = ground arith in
    (
      (λ h. ((λ e. cc e), sound (zero_exit (rw owns at h)))),
      λ (_, passes). rw owns (exits (complete passes)),
    )

-- The script passes exactly when the catalog owns a dependency, every manifest of the packages
-- can be parsed, and every dependency, for development or not, that the catalog owns is referenced as
-- `catalog:`.
pub check_catalog_iff :
    (parse : Text → Option Package) (workspace : Text) (groups : List GroupEntry)
    → (check_catalog parse workspace groups ≡ 0) ↔ (
        (catalog_names workspace ≢ [])
        × All (Passes (catalog_names workspace) parse) (package_manifests groups))
unfolding check_catalog
check_catalog_iff parse workspace groups =
    exit_code_iff (catalog_names workspace) parse (package_manifests groups)
