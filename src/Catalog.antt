-- ===== src/Catalog.antt =====
-- scripts/check-catalog.mjs: no package names a version of a dependency that the catalog owns. The
-- directories and files that it reads are given; what is written to the terminal is left out.
pub mod Names
pub mod Violations
use predictor_common.Prelude.Text.{
  Text, codes, text_eq, trim_start, starts_with, split, is_space, has,
}
use predictor_common.Prelude.{
  ℕ, Bool, true, false, not, ◌&&◌, ◌||◌, ◌==◌, Option, none, some, List, [], ◌∷◌, ◌++◌, all, length,
  ltb, if◌then◌else◌, drop,
}

-- A directory's entry in `packages/<group>`: its name, whether it is a directory, and what reading its
-- `package.json` gives, `none` where there is no such file.
pub record PackageEntry : Type 0 where
  pub name : Text
  pub is_directory : Bool
  pub package_json : Option Text

pub record GroupEntry : Type 0 where
  pub name : Text
  pub is_directory : Bool
  pub packages : List PackageEntry

pub record Manifest : Type 0 where
  pub display : Text
  pub content : Text

abbrev pub display_of : Text → Text → Text
display_of group pkg = codes "packages/" ++ (group ++ (codes "/" ++ (pkg ++ codes "/package.json")))

abbrev pub manifest_of : Text → PackageEntry → List Manifest
manifest_of group pkg = elim pkg.package_json [
  | none ↦ []
  | some content ↦ record { display = display_of group pkg.name; content = content } ∷ []
]

abbrev pub group_manifests : Text → List PackageEntry → List Manifest
group_manifests group [] = []
group_manifests group (pkg ∷ rest) =
    (if not pkg.is_directory then [] else manifest_of group pkg) ++ group_manifests group rest

abbrev pub package_manifests : List GroupEntry → List Manifest
package_manifests [] = []
package_manifests (group ∷ rest) =
    (if not group.is_directory then [] else group_manifests group.name group.packages)
    ++ package_manifests rest

-- `/^catalog:\s*$/`.
abbrev pub is_catalog_line : Text → Bool
is_catalog_line line = starts_with line (codes "catalog:") && all is_space (drop 8 line)

-- The lines after the first that starts the block.
abbrev pub after_start : List Text → Option (List Text)
after_start [] = none
after_start (line ∷ lines) = elim (is_catalog_line line) [
  | true ↦ some lines
  | false ↦ after_start lines
]

-- `/^\S/`.
abbrev pub is_dedent : Text → Bool
is_dedent [] = false
is_dedent (c ∷ s) = not (is_space c)

-- `/^\s*(#|$)/`.
abbrev pub is_ignored : Text → Bool
is_ignored [] = true
is_ignored (c ∷ s) = if is_space c then is_ignored s else c == b'#'

-- The longest start of code units of a class, and the rest.
abbrev pub span : (ℕ → Bool) → Text → Text × Text
span p [] = ([], [])
span p (c ∷ s) = elim (p c) [
  | true ↦ let (taken, rest) = span p s in (c ∷ taken, rest)
  | false ↦ ([], c ∷ s)
]

-- `\s*:`.
abbrev pub colon_follows : Text → Bool
colon_follows [] = false
colon_follows (c ∷ s) = if is_space c then colon_follows s else c == b':'

abbrev pub closed : ℕ → Text × Text → Option Text
closed q ([], rest) = none
closed q (c ∷ name, []) = none
closed q (c ∷ name, d ∷ rest) = if d == q && colon_follows rest then some (c ∷ name) else none

-- A name in these quotes, at the start.
abbrev pub quoted : ℕ → Text → Option Text
quoted q [] = none
quoted q (c ∷ s) = if c == q then closed q (span (λ d. not (d == q)) s) else none

abbrev pub is_bare : ℕ → Bool
is_bare c = not (c == b':' || is_space c)

abbrev pub bare_of : Text × Text → Option Text
bare_of ([], rest) = none
bare_of (c ∷ name, rest) = if colon_follows rest then some (c ∷ name) else none

abbrev pub bare : Text → Option Text
bare s = bare_of (span is_bare s)

abbrev pub or_else : Option Text → Option Text → Option Text
or_else none o = o
or_else (some name) o = some name

-- `\s+` and one of the three forms of a key.
unfoldable pub entry_name : Text → Option Text
entry_name line =
    let key = trim_start line in or_else (quoted 39 key) (or_else (quoted 34 key) (bare key))

-- `names.add`.
abbrev pub add_name : Option Text → List Text → List Text
add_name none names = names
add_name (some name) names = if has names name then names else names ++ (name ∷ [])

unfoldable pub block_names : List Text → List Text → List Text
unfolding entry_name
block_names names [] = names
block_names names (line ∷ lines) = elim (is_dedent line) [
  | true ↦ names
  | false ↦ block_names (if is_ignored line then names else add_name (entry_name line) names) lines
]

abbrev pub names_after : Option (List Text) → List Text
names_after none = []
names_after (some lines) = block_names [] lines

unfoldable pub catalog_names : Text → List Text
catalog_names workspace_yaml = names_after (after_start (split 10 workspace_yaml))

-- The two fields that are checked, `[]` for a missing one, as `Object.entries` gives them.
pub record Package : Type 0 where
  pub dependencies : List (Text × Text)
  pub dev_dependencies : List (Text × Text)

pub record Violation : Type 0 where
  pub display : Text
  pub field : Text
  pub name : Text
  pub range : Text

module _ (catalog : List Text) where
  abbrev pub is_violation : Text × Text → Bool
  is_violation (name, range) = has catalog name && not (text_eq range (codes "catalog:"))

  abbrev pub field_violations : Text → Text → List (Text × Text) → List Violation
  field_violations display field [] = []
  field_violations display field ((name, range) ∷ entries) =
      (if is_violation (name, range)
        then record { display = display; field = field; name = name; range = range } ∷ []
        else [])
      ++ field_violations display field entries

  abbrev pub package_violations : Text → Package → List Violation
  package_violations display pkg =
      field_violations display (codes "dependencies") pkg.dependencies
      ++ field_violations display (codes "devDependencies") pkg.dev_dependencies

  -- `none` where a manifest cannot be parsed.
  unfoldable pub violations : (Text → Option Package) → List Manifest → Option (List Violation)
  violations parse [] = some []
  violations parse (m ∷ rest) =
      let later = violations parse rest in
      elim (parse m.content) [
        | none ↦ none
        | some pkg ↦ elim later [
          | none ↦ none
          | some found ↦ some (package_violations m.display pkg ++ found)
        ]
      ]

abbrev pub exit_of : Option (List Violation) → ℕ
exit_of none = 1
exit_of (some []) = 0
exit_of (some (v ∷ found)) = 1

-- The exit code of the script, from the text of pnpm-workspace.yaml, the directories and `JSON.parse`.
unfoldable pub check_catalog : (Text → Option Package) → Text → List GroupEntry → ℕ
unfolding violations catalog_names block_names
check_catalog parse workspace groups =
    let catalog = catalog_names workspace in
    if ltb 0 (length catalog)
    then exit_of (violations catalog parse (package_manifests groups))
    else 1
