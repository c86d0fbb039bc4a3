-- ===== src/GitHooks/Install/Nearest.antt =====
-- Which husky packages/tooling/git-hooks/src/install.ts runs.
use predictor_common.Prelude.{
  Bool, true, false, ◌≡◌, refl, All, Option, none, some, List, [], ◌∷◌, ◌++◌, Bool-cases, inl, inr,
  arith,
}
use predictor_common.GitHooks.FileSystem.{Location}
use predictor_common.GitHooks.Install.{candidates, find_present, resolve_husky_bin}

-- The directory itself, its parent and so on up to the root: what each offers, in this order.
abbrev pub offered : Location → List Location
offered [] = candidates []
offered (name ∷ parent) = candidates (name ∷ parent) ++ offered parent

-- The first path that is there, or none when none is.
abbrev pub IsFirst : (Location → Bool) → List Location → Option Location → Type 0
IsFirst present paths none = All (λ path. present path ≡ false) paths
IsFirst present paths (some path) =
    (earlier later : List Location) × (paths ≡ earlier ++ (path ∷ later))
    × All (λ p. present p ≡ false) earlier
    × (present path ≡ true)

module _ (present : Location → Bool) where
  IsFirst-cons :
      (path : Location) (paths : List Location) (o : Option Location)
      → present path ≡ false
      → IsFirst present paths o
      → IsFirst present (path ∷ paths) o
  IsFirst-cons path paths none absent h = (absent, h)
  IsFirst-cons path paths (some found) absent (earlier, later, e, before, h) =
      (path ∷ earlier, later, rw e, (absent, before), h)

  find_present-IsFirst :
      (paths : List Location) → IsFirst present paths (find_present present paths)
  find_present-IsFirst [] = tt
  find_present-IsFirst (path ∷ paths) = elim (Bool-cases (present path)) [
    | inl there ↦ rw there ([], paths, refl, tt, there)
    | inr absent ↦
        rw absent
          (IsFirst-cons path paths (find_present present paths) absent (find_present-IsFirst paths))
  ]

  resolve_husky_bin-offered :
      (dir : Location) → resolve_husky_bin present dir ≡ find_present present (offered dir)
  unfolding resolve_husky_bin
  resolve_husky_bin-offered [] = refl
  resolve_husky_bin-offered (name ∷ parent) = ground (arith, resolve_husky_bin-offered parent)

-- The walk from a directory up to the root gives the nearest `bin.js`, that under `node_modules`
-- before the sibling: it is there, and nothing that was looked at before it is. The function throws
-- exactly when none of the places up to the root has one.
pub resolve_husky_bin_nearest :
    (present : Location → Bool) (dir : Location)
    → IsFirst present (offered dir) (resolve_husky_bin present dir)
resolve_husky_bin_nearest present dir =
    rw (resolve_husky_bin-offered present dir) (find_present-IsFirst present (offered dir))
