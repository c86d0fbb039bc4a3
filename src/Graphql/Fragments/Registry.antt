-- ===== src/Graphql/Fragments/Registry.antt =====
-- `resolve` of the registry in packages/web/graphql-client/src/fragments.ts: the rounds that the loop
-- needs, and the document that comes out.
use predictor_common.Prelude.Text.{Text, text_eq, text_eq_iff, has, Distinct, Distinct-append}
use predictor_common.Prelude.Dict.{get, put, get-put, text_key}
use predictor_common.Prelude.{
  ℕ, zero, suc, ◌+◌, ◌≤◌, ◌≡◌, refl, ◌↔◌, inl, inr, false, Option, none, some, List, [], ◌∷◌, ◌++◌,
  map, length, Bool-cases, arith,
}
use predictor_common.Graphql.Fragments.{
  spread_names, Collection, visit_name, visit_names, collect, document_of, assemble_document,
  resolve,
}
use predictor_common.Graphql.Fragments.Visits.{
  Reached, Visited, known, unknown, added, Visited-visit_name,
}
use predictor_common.Graphql.Fragments.Closure.{
  Collects, Collects-after, Collects-start, Collects-iff, after,
}

abbrev pub keys : List (Text × Text) → List Text
keys d = map (λ entry. entry.0) d

keys-put :
    (d : List (Text × Text)) (k v : Text) → get d k ≡ none → keys (put d k v) ≡ keys d ++ (k ∷ [])
keys-put [] k v h = refl
keys-put ((j, w) ∷ d) k v h = elim (Bool-cases (text_eq j k)) [
  | inl same ↦ grind arith
  | inr other ↦ rw (other, keys-put d k v (grind arith)) refl
]

has-keys : (d : List (Text × Text)) (k : Text) → get d k ≡ none → has (keys d) k ≡ false
has-keys [] k h = refl
has-keys ((j, w) ∷ d) k h = elim (Bool-cases (text_eq j k)) [
  | inl same ↦ grind arith
  | inr other ↦ rw other (has-keys d k (grind arith))
]

-- The definitions that are not collected yet.
abbrev missing : Option Text → ℕ
missing none = 1
missing (some d) = 0

abbrev remaining : List (Text × Text) → List (Text × Text) → ℕ
remaining [] collected = 0
remaining ((name, definition) ∷ rest) collected =
    missing (get collected name) + remaining rest collected

missing-put_le :
    (c : List (Text × Text)) (k v n : Text) → missing (get (put c k v) n) ≤ missing (get c n)
missing-put_le c k v n = elim (Bool-cases (text_eq k n)) [
  | inl same ↦ rw (get-put c k v n, same) (omega arith)
  | inr other ↦ rw (get-put c k v n, other) (omega arith)
]

remaining-put_le :
    (definitions collected : List (Text × Text)) (k v : Text)
    → remaining definitions (put collected k v) ≤ remaining definitions collected
remaining-put_le [] c k v = omega arith
remaining-put_le ((n, d) ∷ rest) c k v =
    omega (arith, missing-put_le c k v n, remaining-put_le rest c k v)

remaining-put :
    (definitions collected : List (Text × Text)) (k v d : Text)
    → get definitions k ≡ some d
    → get collected k ≡ none
    → suc (remaining definitions (put collected k v)) ≤ remaining definitions collected
remaining-put [] c k v e found fresh = grind arith
remaining-put ((n, d) ∷ rest) c k v e found fresh = elim (Bool-cases (text_eq n k)) [
  | inl same ↦
      let is : n ≡ k = (text_eq_iff n k).0 same in
      let now : missing (get (put c k v) n) ≡ 0 =
        rw (is, get-put c k v k, (text_eq_iff k k).1 refl) refl in
      let before : missing (get c n) ≡ 1 = rw (is, fresh) refl in
      omega (arith, now, before, remaining-put_le rest c k v)
  | inr other ↦
      let later : get rest k ≡ some e = grind (arith, found, other) in
      omega (arith, missing-put_le c k v n, remaining-put rest c k v e later fresh)
]

remaining-le : (definitions : List (Text × Text)) → remaining definitions [] ≡ length definitions
remaining-le [] = refl
remaining-le ((n, d) ∷ rest) = omega (arith, remaining-le rest)

module _ (definitions : List (Text × Text)) where
  abbrev pub lookup : Text → Option Text
  lookup name = get definitions name

  -- What is still to be done, and the names collected once each.
  abbrev work : Collection → ℕ
  work c = length c.pending + remaining definitions c.collected

  Visited-work : (name : Text) (c c' : Collection) → Visited lookup name c c' → work c' ≤ work c
  Visited-work name c _ (known d h) = omega arith
  Visited-work name c _ (unknown h) = omega arith
  Visited-work name c _ (added d fresh found) =
      omega (arith, remaining-put definitions c.collected name d d found fresh)

  Visited-Distinct :
      (name : Text) (c c' : Collection)
      → Visited lookup name c c'
      → Distinct (keys c.collected)
      → Distinct (keys c'.collected)
  Visited-Distinct name c _ (known d h) k = k
  Visited-Distinct name c _ (unknown h) k = k
  Visited-Distinct name c _ (added d fresh found) k =
      rw (keys-put c.collected name d fresh)
        (Distinct-append (keys c.collected) name (has-keys c.collected name fresh) k)

  visit_names-work :
      (names : List Text) (c : Collection) → work (visit_names lookup names c) ≤ work c
  unfolding visit_names
  visit_names-work [] c = omega arith
  visit_names-work (name ∷ names) c = omega (
    arith,
    visit_names-work names (visit_name lookup name c),
    Visited-work name c _ (Visited-visit_name lookup name c),
  )

  visit_names-Distinct :
      (names : List Text) (c : Collection)
      → Distinct (keys c.collected)
      → Distinct (keys (visit_names lookup names c).collected)
  unfolding visit_names
  visit_names-Distinct [] c k = k
  visit_names-Distinct (name ∷ names) c k =
      visit_names-Distinct names (visit_name lookup name c)
        (Visited-Distinct name c _ (Visited-visit_name lookup name c) k)

  abbrev Outcome : Text → Option (List (Text × Text)) → Type 0
  Outcome query result =
      (collected : List (Text × Text)) × (result ≡ some collected)
      × Collects lookup query collected []
      × Distinct (keys collected)

  collect-Outcome :
      (query : Text) (rounds : ℕ) (collected : List (Text × Text)) (pending : List Text)
      → length pending + remaining definitions collected ≤ rounds
      → Collects lookup query collected pending
      → Distinct (keys collected)
      → Outcome query (collect lookup rounds collected pending)
  unfolding collect
  collect-Outcome query rounds collected [] enough c k = (collected, refl, c, k)
  collect-Outcome query zero collected (document ∷ pending) enough c k = absurd (omega arith)
  collect-Outcome query (suc rounds) collected (document ∷ pending) enough c k =
      let start : Collection = record { collected = collected; pending = pending } in
      let next = after lookup document collected pending in
      collect-Outcome query rounds next.collected next.pending
        (omega (arith, visit_names-work (spread_names document) start))
        (Collects-after lookup query document collected pending c)
        (visit_names-Distinct (spread_names document) start k)

pub collect_lem :
    (definitions : List (Text × Text)) (query : Text)
    → (collected : List (Text × Text)) × (collect
          (lookup definitions)
          (suc (length definitions))
          []
          (query ∷ [])
        ≡ some collected)
      × ((name definition : Text)
          → (get collected name ≡ some definition)
            ↔ ((get definitions name ≡ some definition) × Reached (lookup definitions) query name))
      × Distinct (keys collected)
collect_lem definitions query =
    let (collected, e, c, k) =
      collect-Outcome definitions query (suc (length definitions)) [] (query ∷ [])
        (omega (arith, remaining-le definitions)) (Collects-start (lookup definitions) query) tt in
    (collected, e, Collects-iff (lookup definitions) query collected c, k)

resolve-collect :
    (definitions : List (Text × Text)) (query : Text) (collected : List (Text × Text))
    → collect (lookup definitions) (suc (length definitions)) [] (query ∷ []) ≡ some collected
    → resolve definitions query ≡ some (document_of query collected)
unfolding resolve assemble_document
resolve-collect definitions query collected e = rw (e, resolve, assemble_document) refl

-- For every registry and query, `resolve` ends after at most one round for the query and one for each
-- definition. It returns the query followed by collected definitions, each name at most once, and
-- these are exactly the definitions of the names that the query spreads, itself or through the
-- definitions that it reaches.
pub resolve_lem :
    (definitions : List (Text × Text)) (query : Text)
    → (collected : List (Text × Text)) × (resolve definitions query
        ≡ some (document_of query collected))
      × ((name definition : Text)
          → (get collected name ≡ some definition)
            ↔ ((get definitions name ≡ some definition) × Reached (lookup definitions) query name))
      × Distinct (keys collected)
resolve_lem definitions query =
    let (collected, e, exactly, distinct) = collect_lem definitions query in
    (collected, resolve-collect definitions query collected e, exactly, distinct)
