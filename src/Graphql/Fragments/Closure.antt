-- ===== src/Graphql/Fragments/Closure.antt =====
-- The collection of fragments in packages/web/graphql-client/src/fragments.ts against the fragments
-- that a query reaches, one round of the loop after another.
use mathlib.Core.Path.{subst}
use predictor_common.Prelude.Text.{Text, text_eq, text_eq_iff, has}
use predictor_common.Prelude.Dict.{get, text_key}
use predictor_common.Prelude.{
  ◌≡◌, refl, ◌⊎◌, ◌↔◌, inl, inr, true, Option, some, List, [], ◌∷◌, Bool-cases, arith,
}
use predictor_common.Graphql.Fragments.{spread_names, Collection, visit_names}
use predictor_common.Graphql.Fragments.Visits.{
  Reached, spread, nested, Found, Resolved, Grows-visit_names, visit_names-get, visit_names-Found,
}

module _ (lookup : Text → Option Text) where
  abbrev pub IsSource : Text → List (Text × Text) → Text → Type 0
  IsSource query collected document =
      (document ≡ query) ⊎ ((name : Text) × (get collected name ≡ some document))

  -- Between two rounds.
  abbrev pub Collects : Text → List (Text × Text) → List Text → Type 0
  Collects query collected pending =
      Found lookup query collected
      × ((document : Text) → has pending document ≡ true → IsSource query collected document)
      × ((document : Text)
          → IsSource query collected document
          → (has pending document ≡ true) ⊎ Resolved lookup collected document)

  source-Reached :
      (query document : Text) (collected : List (Text × Text))
      → Found lookup query collected
      → IsSource query collected document
      → (name : Text) → has (spread_names document) name ≡ true
      → Reached lookup query name
  source-Reached query document collected f (inl is) n h =
      spread n (subst (λ x. has (spread_names x) n ≡ true) is h)
  source-Reached query document collected f (inr (m, g)) n h =
      nested m document n (f m document g).1 (f m document g).0 h

  -- The collection after a round.
  abbrev pub after : Text → List (Text × Text) → List Text → Collection
  after document collected pending =
      visit_names lookup (spread_names document)
        (record { collected = collected; pending = pending })

  pub Collects-after :
      (query document : Text) (collected : List (Text × Text)) (pending : List Text)
      → Collects query collected (document ∷ pending)
      → Collects query
          (after document collected pending).collected
          (after document collected pending).pending
  Collects-after query document collected pending (f, p, s) =
      let c : Collection = record { collected = collected; pending = pending } in
      let names = spread_names document in
      let r : (name : Text) → has names name ≡ true → Reached lookup query name =
        source-Reached query document collected f
          (p document (ground (arith, text_eq_iff document document))) in
      let g = Grows-visit_names lookup names c in
      let done : Resolved lookup (after document collected pending).collected document =
        visit_names-get lookup query names c r f in
      let settled : (d : Text)
          → IsSource query collected d
          → (has (after document collected pending).pending d ≡ true)
            ⊎ Resolved lookup (after document collected pending).collected d =
        λ d source. elim (s d source) [
          | inr resolved ↦ inr (λ n e h l. g.0 n e (resolved n e h l))
          | inl queued ↦ elim (Bool-cases (text_eq document d)) [
            | inl is ↦ inr (
                subst (λ x. Resolved lookup (after document collected pending).collected x)
                  ((text_eq_iff document d).0 is) done)
            | inr other ↦ inl (g.1 d (ground arith))
          ]
        ] in
      (
        visit_names-Found lookup query names c r f,
        λ d h. elim (g.3 d h) [
          | inr found ↦ inr found
          | inl old ↦ elim (p d (ground arith)) [
            | inl is ↦ inl is
            | inr (m, e) ↦ inr (m, g.0 m d e)
          ]
        ],
        λ d source. elim source [
          | inl is ↦ settled d (inl is)
          | inr (m, e) ↦ elim (g.2 m d e) [
            | inr queued ↦ inl queued
            | inl old ↦ settled d (inr (m, old))
          ]
        ],
      )

  pub Collects-start : (query : Text) → Collects query [] (query ∷ [])
  Collects-start query = (
    λ n e h. grind arith,
    λ d h. inl (ground (arith, text_eq_iff query d)),
    λ d source. elim source [
      | inl is ↦ inl (ground (arith, text_eq_iff query d))
      | inr (m, e) ↦ grind arith
    ],
  )

  -- Once nothing is pending, the collected definitions are those of the names that the query reaches.
  Collects-get :
      (query : Text) (collected : List (Text × Text))
      → Collects query collected []
      → (name definition : Text) → Reached lookup query name
      → lookup name ≡ some definition
      → get collected name ≡ some definition
  Collects-get query collected (f, p, s) _ e (spread n h) l = elim (s query (inl refl)) [
    | inl queued ↦ ground arith
    | inr resolved ↦ resolved n e h l
  ]
  Collects-get query collected (f, p, s) _ e (nested m d n r found h) l =
      elim (s d (inr (m, Collects-get query collected (f, p, s) m d r found))) [
        | inl queued ↦ ground arith
        | inr resolved ↦ resolved n e h l
      ]

  pub Collects-iff :
      (query : Text) (collected : List (Text × Text))
      → Collects query collected []
      → (name definition : Text)
      → (get collected name ≡ some definition)
        ↔ ((lookup name ≡ some definition) × Reached lookup query name)
  Collects-iff query collected c n e = (c.0 n e, λ h. Collects-get query collected c n e h.1 h.0)
