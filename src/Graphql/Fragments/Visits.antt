-- ===== src/Graphql/Fragments/Visits.antt =====
-- The collection of fragments in packages/web/graphql-client/src/fragments.ts one document at
-- a time: what a visit of its names adds, and that nothing is lost.
use mathlib.Core.Path.{subst}
use predictor_common.Prelude.Text.{Text, text_eq, text_eq_iff, has}
use predictor_common.Prelude.Dict.{get, put, get-put, get-put_keeps, get-put_cases, text_key}
use predictor_common.Prelude.{
  ◌≡◌, ap, ◌∙◌, ◌⊎◌, inl, inr, true, Option, none, some, List, [], ◌∷◌, Option-cases, Bool-cases,
  arith,
}
use predictor_common.Graphql.Fragments.{spread_names, Collection, visit_name, visit_names}

module _ (lookup : Text → Option Text) where
  -- The names that a query spreads, itself or in a definition that it reaches.
  pub data Reached (query : Text) : Text → Type 0 where
    spread : (name : Text) → has (spread_names query) name ≡ true → Reached query name
    nested :
        (parent definition name : Text)
        → Reached query parent
        → lookup parent ≡ some definition
        → has (spread_names definition) name ≡ true
        → Reached query name

  -- Every collected definition is the one looked up, under a name that the query reaches.
  abbrev pub Found : Text → List (Text × Text) → Type 0
  Found query collected =
      (name definition : Text)
      → get collected name ≡ some definition
      → (lookup name ≡ some definition) × Reached query name

  -- What a visit of a name does.
  pub data Visited (name : Text) (c : Collection) : Collection → Type 0 where
    known : (definition : Text) → get c.collected name ≡ some definition → Visited name c c
    unknown : lookup name ≡ none → Visited name c c
    added :
        (definition : Text)
        → get c.collected name ≡ none
        → lookup name ≡ some definition
        → Visited name c (record {
          collected = put c.collected name definition;
          pending = definition ∷ c.pending;
        })

  pub Visited-visit_name :
      (name : Text) (c : Collection) → Visited name c (visit_name lookup name c)
  unfolding visit_name
  Visited-visit_name name c = elim (Option-cases (get c.collected name)) [
    | inr (d, present) ↦ rw (present, visit_name) (known d present)
    | inl fresh ↦ elim (Option-cases (lookup name)) [
      | inl missing ↦ rw (fresh, missing, visit_name) (unknown missing)
      | inr (d, found) ↦ rw (fresh, found, visit_name) (added d fresh found)
    ]
  ]

  -- Nothing that is collected or pending is lost, and what is new is pending.
  abbrev pub Grows : Collection → Collection → Type 0
  Grows c c' =
      ((name definition : Text)
        → get c.collected name ≡ some definition
        → get c'.collected name ≡ some definition)
      × ((document : Text) → has c.pending document ≡ true → has c'.pending document ≡ true)
      × ((name definition : Text)
          → get c'.collected name ≡ some definition
          → (get c.collected name ≡ some definition) ⊎ (has c'.pending definition ≡ true))
      × ((document : Text)
          → has c'.pending document ≡ true
          → (has c.pending document ≡ true)
            ⊎ ((name : Text) × (get c'.collected name ≡ some document)))

  Visited-Grows : (name : Text) (c c' : Collection) → Visited name c c' → Grows c c'
  Visited-Grows name c _ (known d h) = (λ n e g. g, λ d g. g, λ n e g. inl g, λ d g. inl g)
  Visited-Grows name c _ (unknown h) = (λ n e g. g, λ d g. g, λ n e g. inl g, λ d g. inl g)
  Visited-Grows name c _ (added d fresh found) = (
    λ n e g. get-put_keeps c.collected name d n e fresh g,
    λ document g. ground (arith, g),
    λ n e g. elim (get-put_cases c.collected name d n e g) [
      | inl old ↦ inl old
      | inr (same, is) ↦ inr (ground (arith, text_eq_iff d e))
    ],
    λ document g. elim (Bool-cases (text_eq d document)) [
      | inr other ↦ inl (ground arith)
      | inl is ↦ inr (
        name,
        grind
            (arith, get-put c.collected name d name, text_eq_iff d document, text_eq_iff name name),
      )
    ],
  )

  Grows-trans : (a b c : Collection) → Grows a b → Grows b c → Grows a c
  Grows-trans a b c (k, q, n, o) (k', q', n', o') = (
    λ name e g. k' name e (k name e g),
    λ document g. q' document (q document g),
    λ name e g. elim (n' name e g) [
      | inr queued ↦ inr queued
      | inl old ↦ elim (n name e old) [ inl older ↦ inl older | inr queued ↦ inr (q' e queued) ]
    ],
    λ document g. elim (o' document g) [
      | inr (m, got) ↦ inr (m, got)
      | inl old ↦ elim (o document old) [
        | inl older ↦ inl older
        | inr (m, got) ↦ inr (m, k' m document got)
      ]
    ],
  )

  pub Grows-visit_names :
      (names : List Text) (c : Collection) → Grows c (visit_names lookup names c)
  unfolding visit_names
  Grows-visit_names [] c = (λ n e g. g, λ d g. g, λ n e g. inl g, λ d g. inl g)
  Grows-visit_names (name ∷ names) c =
      Grows-trans c (visit_name lookup name c) _
        (Visited-Grows name c _ (Visited-visit_name name c))
        (Grows-visit_names names (visit_name lookup name c))

  Visited-Found :
      (query name : Text) (c c' : Collection)
      → Visited name c c'
      → Reached query name
      → Found query c.collected
      → Found query c'.collected
  Visited-Found query name c _ (known d h) r f n e g = f n e g
  Visited-Found query name c _ (unknown h) r f n e g = f n e g
  Visited-Found query name c _ (added d fresh found) r f n e g =
      elim (get-put_cases c.collected name d n e g) [
        | inl old ↦ f n e old
        | inr (same, is) ↦ rw⁻¹ same (rw⁻¹ is (found, r))
      ]

  -- The name is collected with its definition, if it has one.
  Visited-get :
      (query name definition : Text) (c c' : Collection)
      → Visited name c c'
      → Found query c.collected
      → lookup name ≡ some definition
      → get c'.collected name ≡ some definition
  Visited-get query name e c _ (known d h) f l = grind (arith, f name d h)
  Visited-get query name e c _ (unknown h) f l = grind arith
  Visited-get query name e c _ (added d fresh found) f l =
      grind (arith, get-put c.collected name d name, text_eq_iff name name)

  pub visit_names-Found :
      (query : Text) (names : List Text) (c : Collection)
      → ((name : Text) → has names name ≡ true → Reached query name)
      → Found query c.collected
      → Found query (visit_names lookup names c).collected
  unfolding visit_names
  visit_names-Found query [] c r f = f
  visit_names-Found query (name ∷ names) c r f =
      visit_names-Found query names (visit_name lookup name c) (λ n h. r n (ground (arith, h)))
        (Visited-Found query name c _ (Visited-visit_name name c)
          (r name (ground (arith, text_eq_iff name name))) f)

  -- Every definition that the document spreads is collected.
  abbrev pub Resolved : List (Text × Text) → Text → Type 0
  Resolved collected document =
      (name definition : Text)
      → has (spread_names document) name ≡ true
      → lookup name ≡ some definition
      → get collected name ≡ some definition

  pub visit_names-get :
      (query : Text) (names : List Text) (c : Collection)
      → ((name : Text) → has names name ≡ true → Reached query name)
      → Found query c.collected
      → (name definition : Text) → has names name ≡ true
      → lookup name ≡ some definition
      → get (visit_names lookup names c).collected name ≡ some definition
  unfolding visit_names
  visit_names-get query [] c r f n e h l = ground (arith, h)
  visit_names-get query (name ∷ names) c r f n e h l = elim (Bool-cases (text_eq name n)) [
    | inl same ↦
        let is : name ≡ n = (text_eq_iff name n).0 same in
        (Grows-visit_names names (visit_name lookup name c)).0 n e (
          subst (λ x. get (visit_name lookup name c).collected x ≡ some e) is
            (Visited-get query name e c _ (Visited-visit_name name c) f (ap lookup is ∙ l)))
    | inr other ↦
        visit_names-get query names (visit_name lookup name c) (λ m g. r m (ground (arith, g)))
          (Visited-Found query name c _ (Visited-visit_name name c)
            (r name (ground (arith, text_eq_iff name name))) f)
          n e (ground arith) l
  ]
