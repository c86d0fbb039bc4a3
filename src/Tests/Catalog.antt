-- ===== src/Tests/Catalog.antt =====
-- Runs of scripts/check-catalog.mjs.
use predictor_common.Prelude.Text.{Text, codes, text_eq}
use predictor_common.Prelude.{
  ◌≡◌, ◌≢◌, ◌↔◌, refl, All, true, Option, none, some, List, [], ◌∷◌, ◌++◌, if◌then◌else◌,
}
use predictor_common.Catalog.{GroupEntry, Package, package_manifests, catalog_names, check_catalog}
use predictor_common.Catalog.Violations.{Passes, check_catalog_iff}
use predictor_common.Catalog.Names.{Key, plain, single, double, catalog_names-lines}

-- A workspace file with a scoped name in quotes.
abbrev workspace : Text
workspace =
    codes "packages:"
    ++ (10
        ∷ (codes "catalog:"
            ++ (10
                ∷ (codes "  zod: ^4"
                    ++ (10
                        ∷ (codes "  '@mui/x': ^7"
                            ++ (10 ∷ (codes "  \"next\": ^15" ++ (10 ∷ codes "hooks:")))))))))

abbrev keys : List (Key × Text)
keys =
    (plain b'z' (codes "od"), codes "^4")
    ∷ (single b'@' (codes "mui/x"), codes "^7")
    ∷ (double b'n' (codes "ext"), codes "^15")
    ∷ []

catalog_names-lines_example :
    catalog_names workspace ≡ codes "zod" ∷ codes "@mui/x" ∷ codes "next" ∷ []
catalog_names-lines_example =
    catalog_names-lines workspace (codes "packages:" ∷ []) (codes "hooks:" ∷ []) keys refl
      (refl, tt) ((refl, refl), (refl, (refl, tt))) (refl, (refl, (refl, tt))) refl

-- A package that pins what the catalog owns.
abbrev pinned : Package
pinned = record {
  dependencies = (codes "react", codes "^19") ∷ [];
  dev_dependencies = (codes "zod", codes "^3") ∷ [];
}

abbrev referring : Package
referring = record { dependencies = (codes "zod", codes "catalog:") ∷ []; dev_dependencies = [] }

abbrev parse : Text → Option Package
parse content =
    if text_eq content (codes "pinned")
    then some pinned
    else if text_eq content (codes "referring")
    then some referring
    else none

abbrev groups_of : Text → List GroupEntry
groups_of content =
    record {
      name = codes "web";
      is_directory = true;
      packages =
          record { name = codes "ui"; is_directory = true; package_json = some content } ∷ [];
    }
    ∷ []

pinned_test : check_catalog parse workspace (groups_of (codes "pinned")) ≡ 1
unfolding check_catalog
pinned_test = refl

referring_test : check_catalog parse workspace (groups_of (codes "referring")) ≡ 0
unfolding check_catalog
referring_test = refl

check_catalog_iff_example : (check_catalog parse workspace (groups_of (codes "pinned")) ≡ 0) ↔ (
    (catalog_names workspace ≢ [])
    × All (Passes (catalog_names workspace) parse) (package_manifests (groups_of (codes "pinned"))))
check_catalog_iff_example = check_catalog_iff parse workspace (groups_of (codes "pinned"))
