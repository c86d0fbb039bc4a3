-- ===== src/GitHooks/Install/Effect.antt =====
-- What packages/tooling/git-hooks/src/install.ts leaves of the file system.
use predictor_common.Prelude.Text.{Text, codes}
use predictor_common.Prelude.Dict.{get, put, get-put}
use predictor_common.Prelude.{
  ℕ, true, false, ◌≡◌, refl, ◌∙◌, Option, none, some, [], ◌∷◌, Bool-cases, Option-cases, inl, inr,
  if◌then◌else◌, not, arith,
}
use predictor_common.GitHooks.FileSystem.{
  location_key, Location, FileSystem, Entry, file, directory, location_eq, location_eq_iff, exists,
  dirname, make_directory, copy_file, chmod,
}
use predictor_common.GitHooks.Install.{
  resolve_husky_bin, drop_hook, drop_hooks, install, returns, hooks, is_ci,
}

-- The path and all its ancestors are directories.
abbrev pub IsPlace : FileSystem → Location → Type 0
IsPlace files [] = Unit
IsPlace files (name ∷ parent) = (get files (name ∷ parent) ≡ some directory) × IsPlace files parent

make_directory-IsPlace :
    (files : FileSystem) (path : Location)
    → IsPlace files path
    → make_directory path files ≡ some files
unfolding make_directory
make_directory-IsPlace files [] h = refl
make_directory-IsPlace files (name ∷ parent) (h, above) =
    rw (make_directory-IsPlace files parent above, h) refl

-- A directory may be made in its place: it is there, or nothing is.
abbrev pub IsFree : Option Entry → Type 0
IsFree none = Unit
IsFree (some directory) = Unit
IsFree (some (file content mode)) = ⊥

abbrev pub IsNotDirectory : Option Entry → Type 0
IsNotDirectory none = Unit
IsNotDirectory (some directory) = ⊥
IsNotDirectory (some (file content mode)) = Unit

-- What a path holds once a directory is there.
module _ (files made : FileSystem) (path : Location) where
  abbrev pub HasMade : Type 0
  HasMade =
      (p : Location) → get made p ≡ (if location_eq path p then some directory else get files p)

module _ (files : FileSystem) (name : Text) (cwd : Location) where
  abbrev ensured : Option FileSystem
  ensured =
      if not (exists files (name ∷ cwd)) then make_directory (name ∷ cwd) files else some files

  there : get files (name ∷ cwd) ≡ some directory → HasMade files files (name ∷ cwd)
  there e p = elim (Bool-cases (location_eq (name ∷ cwd) p)) [
    | inl same ↦ rw same (rw (← (location_eq_iff (name ∷ cwd) p).0 same) e)
    | inr other ↦ rw other refl
  ]

  ensured_lem :
      IsPlace files cwd
      → IsFree (get files (name ∷ cwd))
      → (made : FileSystem) × (ensured ≡ some made) × HasMade files made (name ∷ cwd)
  unfolding make_directory
  ensured_lem place free = elim (Option-cases (get files (name ∷ cwd))) [
    | inl e ↦ (
      put files (name ∷ cwd) directory,
      rw (e, make_directory-IsPlace files cwd place, e) refl,
      get-put files (name ∷ cwd) directory,
    )
    | inr (directory, e) ↦ (files, rw e refl, there e)
    | inr (file content mode, e) ↦ absurd (rw e at free)
  ]

location_eq_refl : (p : Location) → location_eq p p ≡ true
location_eq_refl p = (location_eq_iff p p).1 refl

module _ (files : FileSystem) (path : Location) (content : Text) (mode : ℕ) where
  chmod-put :
      chmod path 0o755 (put files path (file content mode))
      ≡ some (put (put files path (file content mode)) path (file content 0o755))
  unfolding chmod
  chmod-put = rw (get-put files path (file content mode) path, location_eq_refl path) refl

  get-put-put :
      (p : Location)
      → get (put (put files path (file content mode)) path (file content 0o755)) p
        ≡ (if location_eq path p then some (file content 0o755) else get files p)
  get-put-put p = elim (Bool-cases (location_eq path p)) [
    | inl same ↦
        get-put (put files path (file content mode)) path (file content 0o755) p ∙ rw same refl
    | inr other ↦
        get-put (put files path (file content mode)) path (file content 0o755) p
        ∙ rw other (get-put files path (file content mode) p ∙ rw other refl)
  ]

-- A hook is dropped: its template's content, executable, and nothing else changes.
module _ (templates husky_dir : Location) (hook : Text) (files : FileSystem) where
  drop_hook_lem :
      (content : Text) (mode : ℕ)
      → get files (hook ∷ templates) ≡ some (file content mode)
      → get files husky_dir ≡ some directory
      → IsNotDirectory (get files (hook ∷ husky_dir))
      → (after : FileSystem) × (drop_hook templates husky_dir hook files ≡ (after, true))
        × ((p : Location)
            → get after p ≡ (
                if location_eq (hook ∷ husky_dir) p
                then some (file content 0o755)
                else get files p))
  unfolding copy_file
  drop_hook_lem content mode source dir free = elim (Option-cases (get files (hook ∷ husky_dir))) [
    | inl e ↦ (
      put (put files (hook ∷ husky_dir) (file content mode)) (hook ∷ husky_dir)
          (file content 0o755),
      ground (arith, chmod-put files (hook ∷ husky_dir) content mode),
      get-put-put files (hook ∷ husky_dir) content mode,
    )
    | inr (directory, e) ↦ absurd (rw e at free)
    | inr (file old kept, e) ↦ (
      put (put files (hook ∷ husky_dir) (file content mode)) (hook ∷ husky_dir)
          (file content 0o755),
      ground (arith, chmod-put files (hook ∷ husky_dir) content mode),
      get-put-put files (hook ∷ husky_dir) content mode,
    )
  ]

-- The paths that the command writes.
module _ (cwd : Location) where
  abbrev pub husky_dir : Location
  husky_dir = codes ".husky" ∷ cwd

  abbrev pub hook_path : Text → Location
  hook_path hook = hook ∷ husky_dir

  -- What a path holds once both hooks are dropped, where `old` is what it held.
  abbrev pub installed : (one two : Text) → Location → Option Entry → Option Entry
  installed one two p old =
      if location_eq (hook_path (codes "commit-msg")) p
      then some (file two 0o755)
      else if location_eq (hook_path (codes "pre-commit")) p
      then some (file one 0o755)
      else old

  module _ (made : FileSystem) (templates : Location) (one two : Text) (m n : ℕ) where
    drop_both :
        get made (codes "pre-commit" ∷ codes "husky" ∷ templates) ≡ some (file one m)
        → get made (codes "commit-msg" ∷ codes "husky" ∷ templates) ≡ some (file two n)
        → get made husky_dir ≡ some directory
        → IsNotDirectory (get made (hook_path (codes "pre-commit")))
        → IsNotDirectory (get made (hook_path (codes "commit-msg")))
        → (final : FileSystem) × (drop_hooks (codes "husky" ∷ templates) husky_dir hooks made
            ≡ (final, returns 0))
          × ((p : Location) → get final p ≡ installed one two p (get made p))
    unfolding drop_hooks
    drop_both first second dir free also =
        let (mid, e, h) =
          drop_hook_lem (codes "husky" ∷ templates) husky_dir (codes "pre-commit") made one m first
            dir free in
        let (final, e', h') =
          drop_hook_lem (codes "husky" ∷ templates) husky_dir (codes "commit-msg") mid two n
            (h (codes "commit-msg" ∷ codes "husky" ∷ templates) ∙ second) (h husky_dir ∙ dir)
            (rw (h (hook_path (codes "commit-msg"))) also) in
        (final, rw (e, e') refl, λ p. rw (h' p, h p) refl)

-- Outside CI and inside a repository, where husky is found and succeeds, both templates are then files,
-- the working directory and those above it are directories, `.husky` is one or not there yet and no
-- hook's path is a directory: the command returns 0, both hooks hold the templates' texts with the
-- mode 0o755 whatever they held before, `.husky` is a directory, and every other path is as husky left it.
pub install-writes :
    (husky : Location → FileSystem → FileSystem × Option ℕ) (module_dir cwd bin : Location)
    (ci : Option Text) (files after : FileSystem) (one two : Text) (m n : ℕ)
    → is_ci ci ≡ false
    → exists files (codes ".git" ∷ cwd) ≡ true
    → resolve_husky_bin (exists files) module_dir ≡ some bin
    → husky bin files ≡ (after, some 0)
    → IsPlace after cwd
    → IsFree (get after (husky_dir cwd))
    → get after (codes "pre-commit" ∷ codes "husky" ∷ dirname module_dir) ≡ some (file one m)
    → get after (codes "commit-msg" ∷ codes "husky" ∷ dirname module_dir) ≡ some (file two n)
    → IsNotDirectory (get after (hook_path cwd (codes "pre-commit")))
    → IsNotDirectory (get after (hook_path cwd (codes "commit-msg")))
    → (final : FileSystem) × (install husky module_dir cwd ci files ≡ (final, returns 0))
      × ((p : Location)
          → get final p
            ≡ installed cwd one two p
                (if location_eq (husky_dir cwd) p then some directory else get after p))
unfolding install
install-writes husky module_dir cwd bin ci files after one two m n local repository found ran place
      free first second plain also =
    let (made, e, h) = ensured_lem after (codes ".husky") cwd place free in
    let (final, e', h') =
      drop_both cwd made (dirname module_dir) one two m n
        (h (codes "pre-commit" ∷ codes "husky" ∷ dirname module_dir) ∙ first)
        (h (codes "commit-msg" ∷ codes "husky" ∷ dirname module_dir) ∙ second)
        (h (husky_dir cwd) ∙ rw (location_eq_refl (husky_dir cwd)) refl)
        (rw (h (hook_path cwd (codes "pre-commit"))) plain)
        (rw (h (hook_path cwd (codes "commit-msg"))) also) in
    (final, rw (local, repository, found, ran, e, e') refl, λ p. rw (h' p, h p) refl)
