-- ===== src/Graphql/Fragments.antt =====
-- packages/web/graphql-client/src/fragments.ts: the names that a document spreads, the collection of
-- the fragments that a query needs, and the registry.
pub mod Visits
pub mod Closure
pub mod Registry
use predictor_common.Prelude.Text.{Text, codes, is_space, join}
use predictor_common.Prelude.Dict.{get, put, text_key}
use predictor_common.Prelude.{
  ℕ, zero, suc, Bool, true, false, not, ◌&&◌, ◌||◌, ◌==◌, Option, none, some, List, [], ◌∷◌, ◌++◌,
  map, length,
}

-- `[^\s,{}()]`.
abbrev pub is_name : ℕ → Bool
is_name c = not (is_space c || c == b',' || c == b'{' || c == b'}' || c == b'(' || c == b')')

-- The matches of `FRAGMENT_SPREAD` from left to right: outside of a match, or with what the group has
-- taken so far. A code unit that ends a group begins no match, as it is no dot.
pub spread_scan : Option Text → Text → List Text
spread_scan none (a ∷ b ∷ c ∷ d ∷ rest) = elim (a == b'.' && b == b'.' && c == b'.' && is_name d) [
  | true ↦ spread_scan (some (d ∷ [])) rest
  | false ↦ spread_scan none (b ∷ c ∷ d ∷ rest)
]
spread_scan none _ = []
spread_scan (some name) [] = name ∷ []
spread_scan (some name) (c ∷ rest) = elim (is_name c) [
  | true ↦ spread_scan (some (name ++ (c ∷ []))) rest
  | false ↦ name ∷ spread_scan none rest
]

unfoldable pub spread_names : Text → List Text
unfolding spread_scan
spread_names document = spread_scan none document

-- `pending` with the document that `pop` takes first.
pub record Collection : Type 0 where
  pub collected : List (Text × Text)
  pub pending : List Text

-- `[query, ...collected.values()].join("\n")`.
abbrev pub document_of : Text → List (Text × Text) → Text
document_of query collected = join (codes "\n") (query ∷ map (λ entry. entry.1) collected)

module _ (lookup : Text → Option Text) where
  unfoldable pub visit_name : Text → Collection → Collection
  visit_name name c = elim (get c.collected name) [
    | some known ↦ c
    | none ↦ elim (lookup name) [
      | none ↦ c
      | some definition ↦ record {
        collected = put c.collected name definition;
        pending = definition ∷ c.pending;
      }
    ]
  ]

  unfoldable pub visit_names : List Text → Collection → Collection
  visit_names [] c = c
  visit_names (name ∷ names) c = visit_names names (visit_name name c)

  -- The `while` loop by the rounds left; `none` if they run out.
  unfoldable pub collect : ℕ → List (Text × Text) → List Text → Option (List (Text × Text))
  collect rounds collected [] = some collected
  collect zero collected (document ∷ pending) = none
  collect (suc rounds) collected (document ∷ pending) =
      let c =
        visit_names (spread_names document) (record { collected = collected; pending = pending }) in
      collect rounds c.collected c.pending

  unfoldable pub assemble_document : ℕ → Text → Option Text
  assemble_document rounds query = elim (collect rounds [] (query ∷ [])) [
    | none ↦ none
    | some collected ↦ some (document_of query collected)
  ]

unfoldable pub register_fragment :
    List (Text × Text) → (name on_type body : Text) → List (Text × Text)
register_fragment definitions name on_type body =
    put definitions name
      (codes "fragment " ++ name ++ codes " on " ++ on_type ++ codes " {\n" ++ body ++ codes "\n}")

unfoldable pub register_connection_fragment :
    List (Text × Text) → (name on_type node_body : Text) → List (Text × Text)
register_connection_fragment definitions name on_type node_body =
    register_fragment definitions name on_type (
      join (codes "\n") (
        codes "edges {"
        ∷ codes "  node {"
        ∷ node_body
        ∷ codes "  }"
        ∷ codes "}"
        ∷ codes "pageInfo {"
        ∷ codes "  startCursor"
        ∷ codes "  endCursor"
        ∷ codes "  hasNextPage"
        ∷ codes "  hasPreviousPage"
        ∷ codes "}"
        ∷ []))

-- `resolve` of the registry, with a round for the query and one for each definition.
unfoldable pub resolve : List (Text × Text) → Text → Option Text
resolve definitions query =
    assemble_document (λ name. get definitions name) (suc (length definitions)) query
