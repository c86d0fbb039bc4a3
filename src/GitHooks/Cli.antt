-- ===== src/GitHooks/Cli.antt =====
-- packages/tooling/git-hooks/src/cli.ts: the command line, from its arguments to the exit code.
use predictor_common.Prelude.Text.{Text, codes, text_eq}
use predictor_common.Prelude.{
  ℕ, ◌≡◌, ◌↔◌, refl, Bool, ◌||◌, Option, some, List, [], ◌∷◌, if◌then◌else◌,
}
use predictor_common.GitHooks.PreCommit.{Command, run_pre_commit-exit_code}
use predictor_common.GitHooks.CommitMsg.{run}
use predictor_common.GitHooks.FileSystem.{Location, FileSystem}
use predictor_common.GitHooks.Install.{Run, Ended, returns, throws, install}

-- `process.exit` after `main`, or after its exception.
abbrev pub exit_code : Ended → ℕ
exit_code (returns code) = code
exit_code throws = 1

-- `ci` is the environment's variable, `husky` and `spawn` the processes, `read_file` the messages.
module _ (husky : Location → FileSystem → FileSystem × Option ℕ) (spawn : Command → Option ℕ)
    (read_file : Text → Option Text) (module_dir cwd : Location) (ci : Option Text) where
  abbrev pub run_step : List Text → ℕ
  run_step [] = 2
  run_step ([] ∷ args) = 2
  run_step ((c ∷ step) ∷ args) = run read_file spawn (c ∷ step) args

  abbrev pub is_help : Text → Bool
  is_help subcommand = text_eq subcommand (codes "--help") || text_eq subcommand (codes "-h")

  unfoldable pub main : List Text → FileSystem → Run
  main [] files = (files, returns 0)
  main (subcommand ∷ rest) files =
      if text_eq subcommand (codes "install")
      then install husky module_dir cwd ci files
      else if text_eq subcommand (codes "run")
      then (files, returns (run_step rest))
      else if is_help subcommand
      then (files, returns 0)
      else (files, returns 2)

-- `run pre-commit` ends with 0 exactly when every process that the hook may spawn ends with 0, and it
-- writes no file itself.
pub main-pre_commit :
    (husky : Location → FileSystem → FileSystem × Option ℕ) (spawn : Command → Option ℕ)
    (read_file : Text → Option Text) (module_dir cwd : Location) (ci : Option Text)
    (args : List Text) (files : FileSystem)
    → let (files', ended) =
        main husky spawn read_file module_dir cwd ci
          (codes "run" ∷ codes "pre-commit" ∷ args)
          files in
      (files' ≡ files) × ((exit_code ended ≡ 0) ↔ ((command : Command) → spawn command ≡ some 0))
unfolding main run
main-pre_commit husky spawn read_file module_dir cwd ci args files =
    (refl, run_pre_commit-exit_code spawn)
