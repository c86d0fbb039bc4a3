-- ===== src/Tests/GitHooks.antt =====
-- Runs of packages/tooling/git-hooks.
use predictor_common.Prelude.Text.{Text, codes}
use predictor_common.Prelude.{
  if◌then◌else◌, ℕ, ◌≡◌, ◌↔◌, ◌⊎◌, refl, Option, none, some, [], ◌∷◌, ◌++◌,
}
use predictor_common.GitHooks.CommitMsg.{run_commit_msg, run, is_conventional}
use predictor_common.GitHooks.CommitMsg.Verdict.{Accepted, run_commit_msg_iff}
use predictor_common.GitHooks.PreCommit.{Command, check, restage, format, lint, typecheck, audit}
use predictor_common.Prelude.Dict.{get, put}
use predictor_common.GitHooks.FileSystem.{
  location_key, Location, FileSystem, directory, file, exists, location_eq,
}
use predictor_common.GitHooks.Install.{Run, resolve_husky_bin, install, returns}
use predictor_common.GitHooks.Install.Effect.{husky_dir, installed, install-writes}
use predictor_common.GitHooks.Cli.{main, exit_code, main-pre_commit}

-- The type check is killed.
abbrev killed : Command → Option ℕ
killed (check format) = some 0
killed (check lint) = some 0
killed (check typecheck) = none
killed (check audit) = some 3
killed restage = some 0

abbrev message : Text → Option Text
message path =
    some ((b'#' ∷ codes " comment") ++ (10 ∷ (10 ∷ codes "fix(scale)!: read signs" ++ (10 ∷ []))))

run_test : run message killed (codes "commit-msg") (codes "m" ∷ []) ≡ 0
unfolding run run_commit_msg is_conventional
run_test = refl

-- With the line ends of Windows the last code unit is no stop.
carriage_return_test :
    run_commit_msg (λ path. some (codes "fix: read signs." ++ (13 ∷ 10 ∷ []))) (some (codes "m"))
    ≡ 0
unfolding run_commit_msg is_conventional
carriage_return_test = refl

work_in_progress_test :
    run_commit_msg (λ path. some (codes "WIP read signs")) (some (codes "m")) ≡ 1
unfolding run_commit_msg is_conventional
work_in_progress_test = refl

run_commit_msg_iff_example :
    ((run_commit_msg message (some (codes "m")) ≡ 0) ↔ Accepted (message (codes "m")))
    × ((run_commit_msg message (some (codes "m")) ≡ 0)
        ⊎ (run_commit_msg message (some (codes "m")) ≡ 1))
run_commit_msg_iff_example = run_commit_msg_iff message (codes "m") (λ e. cc e)

-- A repository with husky under pnpm's strict layout, and the hooks of an older version.
abbrev root_dir : Location
root_dir = codes "repo" ∷ []

abbrev package_dir : Location
package_dir = codes "git-hooks" ∷ codes "modules" ∷ []

abbrev module_path : Location
module_path = codes "dist" ∷ package_dir

abbrev template_path : Text → Location
template_path hook = hook ∷ codes "husky" ∷ package_dir

abbrev husky_bin : Location
husky_bin = codes "bin.js" ∷ codes "husky" ∷ codes "modules" ∷ []

abbrev before : FileSystem
before =
    (root_dir, directory)
    ∷ (codes ".git" ∷ root_dir, directory)
    ∷ (husky_bin, file [] 0o644)
    ∷ (template_path (codes "pre-commit"), file (codes "new") 0o644)
    ∷ (template_path (codes "commit-msg"), file (codes "msg") 0o644)
    ∷ (codes "pre-commit" ∷ husky_dir root_dir, file (codes "old") 0o600)
    ∷ []

-- husky makes its directory.
abbrev husky_run : Location → FileSystem → FileSystem × Option ℕ
husky_run bin files = (put files (husky_dir root_dir) directory, some 0)

resolve_test : resolve_husky_bin (exists before) module_path ≡ some husky_bin
unfolding resolve_husky_bin
resolve_test = refl

install-writes_example :
    (final : FileSystem) × (install husky_run module_path root_dir none before ≡ (final, returns 0))
    × ((p : Location)
        → get final p
          ≡ installed root_dir (codes "new") (codes "msg") p (
              if location_eq (husky_dir root_dir) p
              then some directory
              else get (put before (husky_dir root_dir) directory) p))
install-writes_example =
    install-writes husky_run module_path root_dir husky_bin none before
      (put before (husky_dir root_dir) directory) (codes "new") (codes "msg") 0o644 0o644 refl refl
      resolve_test refl (refl, tt) tt refl refl tt tt

abbrev pre_commit_run : Run
pre_commit_run =
    main husky_run killed message module_path root_dir none (codes "run" ∷ codes "pre-commit" ∷ [])
      before

main-pre_commit_example :
    (pre_commit_run.0 ≡ before)
    × ((exit_code pre_commit_run.1 ≡ 0) ↔ ((command : Command) → killed command ≡ some 0))
main-pre_commit_example =
    main-pre_commit husky_run killed message module_path root_dir none [] before
