-- ===== src/GitHooks/FileSystem.antt =====
-- What packages/tooling/git-hooks/src/install.ts uses of `node:fs` and `node:path`: directories and
-- files under absolute paths. Links, owners and refused permissions are left out.
use predictor_common.Prelude.Text.{Text, text_eq, text_eq_iff}
use predictor_common.Prelude.Dict.{Key, get, put}
use predictor_common.Prelude.{
  ℕ, Bool, true, false, ◌&&◌, ◌≡◌, ◌↔◌, Option, none, some, List, [], ◌∷◌, arith,
}

-- The names of a path, the last one first; `[]` is the root.
abbrev pub Location : Type 0
Location = List Text

abbrev pub location_eq : Location → Location → Bool
location_eq [] [] = true
location_eq [] (d ∷ t) = false
location_eq (c ∷ s) [] = false
location_eq (c ∷ s) (d ∷ t) = text_eq c d && location_eq s t

pub location_eq_iff : (s t : Location) → (location_eq s t ≡ true) ↔ (s ≡ t)
location_eq_iff [] [] = ground arith
location_eq_iff [] (d ∷ t) = ground arith
location_eq_iff (c ∷ s) [] = ground arith
location_eq_iff (c ∷ s) (d ∷ t) = ground (arith, text_eq_iff c d, location_eq_iff s t)

instance abbrev pub location_key : Key Location
location_key = record { same = location_eq; same_iff = location_eq_iff }

pub data Entry : Type 0 where
  directory : Entry
  file : (content : Text) (mode : ℕ) → Entry

abbrev pub FileSystem : Type 0
FileSystem = List (Location × Entry)

abbrev pub is_some : Option Entry → Bool
is_some none = false
is_some (some entry) = true

-- `existsSync`.
abbrev pub exists : FileSystem → Location → Bool
exists files path = is_some (get files path)

-- `dirname`: the root is its own parent.
abbrev pub dirname : Location → Location
dirname [] = []
dirname (name ∷ parent) = parent

-- `mkdirSync` with `recursive`; `none` where it throws, because a name on the way is a file.
abbrev pub make_in : Location → Option Entry → FileSystem → Option FileSystem
make_in path none files = some (put files path directory)
make_in path (some directory) files = some files
make_in path (some (file content mode)) files = none

unfoldable pub make_directory : Location → FileSystem → Option FileSystem
make_directory [] files = some files
make_directory (name ∷ parent) files = elim (make_directory parent files) [
  | none ↦ none
  | some made ↦ make_in (name ∷ parent) (get made (name ∷ parent)) made
]

-- `copyFileSync`: the target takes the text and the mode of the source, also where a file is there.
abbrev pub copy_onto : Location → Text → ℕ → Option Entry → FileSystem → Option FileSystem
copy_onto target content mode none files = some (put files target (file content mode))
copy_onto target content mode (some directory) files = none
copy_onto target content mode (some (file old kept)) files =
    some (put files target (file content mode))

abbrev pub copy_into : Option Entry → Location → Text → ℕ → FileSystem → Option FileSystem
copy_into none target content mode files = none
copy_into (some directory) target content mode files =
    copy_onto target content mode (get files target) files
copy_into (some (file other kept)) target content mode files = none

abbrev pub copy_from : Option Entry → Location → FileSystem → Option FileSystem
copy_from none target files = none
copy_from (some directory) target files = none
copy_from (some (file content mode)) target files =
    copy_into (get files (dirname target)) target content mode files

unfoldable pub copy_file : Location → Location → FileSystem → Option FileSystem
copy_file source target files = copy_from (get files source) target files

-- `chmodSync`; the mode of a directory is not kept.
abbrev pub change_mode : Option Entry → Location → ℕ → FileSystem → Option FileSystem
change_mode none path mode files = none
change_mode (some directory) path mode files = some files
change_mode (some (file content old)) path mode files = some (put files path (file content mode))

unfoldable pub chmod : Location → ℕ → FileSystem → Option FileSystem
chmod path mode files = change_mode (get files path) path mode files
