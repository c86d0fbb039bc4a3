-- ===== src/GitHooks/Install.antt =====
-- packages/tooling/git-hooks/src/install.ts over an explicit file system. The husky process is a
-- parameter: what it leaves of the files, and its exit status.
pub mod Nearest
pub mod Effect
use predictor_common.Prelude.Text.{Text, codes, text_eq}
use predictor_common.Prelude.Dict.{get}
use predictor_common.Prelude.{
  ℕ, Bool, true, false, not, Option, none, some, List, [], ◌∷◌, ◌++◌, if◌then◌else◌,
}
use predictor_common.GitHooks.PreCommit.{is_failure, code_of}
use predictor_common.GitHooks.FileSystem.{
  Location, FileSystem, exists, dirname, make_directory, copy_file, chmod,
}

abbrev pub hooks : List Text
hooks = codes "pre-commit" ∷ codes "commit-msg" ∷ []

abbrev pub candidates : Location → List Location
candidates dir =
    (codes "bin.js" ∷ codes "husky" ∷ codes "node_modules" ∷ dir)
    ∷ (codes "bin.js" ∷ codes "husky" ∷ dir)
    ∷ []

-- The inner loop: the first of the paths that is there.
abbrev pub find_present : (Location → Bool) → List Location → Option Location
find_present present [] = none
find_present present (path ∷ paths) = if present path then some path else find_present present paths

-- The outer loop; `none` where the function throws.
unfoldable pub resolve_husky_bin : (Location → Bool) → Location → Option Location
resolve_husky_bin present [] = find_present present (candidates [])
resolve_husky_bin present (name ∷ parent) =
    let above = resolve_husky_bin present parent in
    elim (find_present present (candidates (name ∷ parent))) [
      | none ↦ above
      | some path ↦ some path
    ]

-- An exit code, or an exception.
pub data Ended : Type 0 where
  returns : ℕ → Ended
  throws : Ended

abbrev pub Run : Type 0
Run = FileSystem × Ended

-- The loop over the hooks; each call that throws leaves the files as they are then.
abbrev pub drop_hook : Location → Location → Text → FileSystem → FileSystem × Bool
drop_hook templates husky_dir hook files =
    elim (copy_file (hook ∷ templates) (hook ∷ husky_dir) files) [
      | none ↦ (files, false)
      | some copied ↦ elim (chmod (hook ∷ husky_dir) 0o755 copied) [
        | none ↦ (copied, false)
        | some done ↦ (done, true)
      ]
    ]

unfoldable pub drop_hooks : Location → Location → List Text → FileSystem → Run
drop_hooks templates husky_dir [] files = (files, returns 0)
drop_hooks templates husky_dir (hook ∷ rest) files =
    let (dropped, ok) = drop_hook templates husky_dir hook files in
    let later = drop_hooks templates husky_dir rest dropped in
    if ok then later else (dropped, throws)

abbrev pub drop_all : Location → Location → Option FileSystem → FileSystem → Run
drop_all templates husky_dir none files = (files, throws)
drop_all templates husky_dir (some made) files = drop_hooks templates husky_dir hooks made

abbrev pub is_ci : Option Text → Bool
is_ci none = false
is_ci (some value) = text_eq value (codes "true")

-- `module_dir` is `__dirname`.
module _ (husky : Location → FileSystem → FileSystem × Option ℕ) (module_dir cwd : Location) where
  abbrev pub after_husky : FileSystem × Option ℕ → Run
  after_husky (files, status) =
      if is_failure status
      then (files, returns (code_of status))
      else let husky_dir : Location = codes ".husky" ∷ cwd in
        drop_all (codes "husky" ∷ dirname module_dir) husky_dir
          (if not (exists files husky_dir) then make_directory husky_dir files else some files)
          files

  abbrev pub with_bin : Option Location → FileSystem → Run
  with_bin none files = (files, throws)
  with_bin (some bin) files = after_husky (husky bin files)

  unfoldable pub install : Option Text → FileSystem → Run
  install ci files =
      if is_ci ci
      then (files, returns 0)
      else if not (exists files (codes ".git" ∷ cwd))
      then (files, returns 0)
      else with_bin (resolve_husky_bin (exists files) module_dir) files
