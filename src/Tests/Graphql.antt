-- ===== src/Tests/Graphql.antt =====
-- Runs of packages/web/graphql-client.
use predictor_common.Prelude.Text.{Text, codes, Distinct}
use predictor_common.Prelude.Dict.{get, text_key}
use predictor_common.Prelude.{◌≡◌, refl, ◌↔◌, some, List, [], ◌∷◌}
use predictor_common.Graphql.Fragments.{
  spread_names, visit_name, visit_names, collect, assemble_document, document_of, resolve,
  register_fragment,
}
use predictor_common.Graphql.Fragments.Visits.{Reached}
use predictor_common.Graphql.Fragments.Registry.{keys, lookup, resolve_lem}

spread_names_test : spread_names (codes "a { ...B, ...C{ .. ...}") ≡ codes "B" ∷ codes "C" ∷ []
unfolding spread_names
spread_names_test = refl

abbrev page : Text
page = codes "fragment Page on P {\n...Row\n}"

abbrev row : Text
row = codes "fragment Row on R {\nid ...Page\n}"

abbrev registry : List (Text × Text)
registry =
    (codes "Page", page)
    ∷ (codes "Row", row)
    ∷ (codes "Other", codes "fragment Other on O {\n}")
    ∷ []

register_test :
    register_fragment
      (register_fragment [] (codes "Page") (codes "P") (codes "...Row"))
      (codes "Row")
      (codes "R")
      (codes "id ...Page")
    ≡ (codes "Page", page) ∷ (codes "Row", row) ∷ []
unfolding register_fragment
register_test = refl

resolve_test :
    resolve registry (codes "{ a { ...Page } }")
    ≡ some
        (document_of (codes "{ a { ...Page } }") ((codes "Page", page) ∷ (codes "Row", row) ∷ []))
unfolding resolve assemble_document collect visit_names visit_name spread_names
resolve_test = refl

resolve_lem_example :
    (collected : List (Text × Text)) × (resolve registry (codes "{ a { ...Page } }")
      ≡ some (document_of (codes "{ a { ...Page } }") collected))
    × ((name definition : Text)
        → (get collected name ≡ some definition) ↔ (
            (get registry name ≡ some definition)
            × Reached (lookup registry) (codes "{ a { ...Page } }") name))
    × Distinct (keys collected)
resolve_lem_example = resolve_lem registry (codes "{ a { ...Page } }")
