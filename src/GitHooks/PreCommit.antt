-- ===== src/GitHooks/PreCommit.antt =====
-- The pre-commit step of packages/tooling/git-hooks/src/run.ts.
use predictor_common.Prelude.{
  ℕ, ◌≡◌, ◌≢◌, ◌↔◌, refl, sym, All, ap, ◌∙◌, inl, inr, Bool, true, false, ◌==◌, Option, none, some,
  List, [], ◌∷◌, Bool-cases, if◌then◌else◌, arith,
}

pub data Step : Type 0 where
  format lint typecheck audit : Step

-- The processes that the step spawns.
pub data Command : Type 0 where
  check : Step → Command
  restage : Command

pub record Hook : Type 0 where
  pub spawned : List Command
  pub exit_code : ℕ

abbrev pub steps : List Step
steps = format ∷ lint ∷ typecheck ∷ audit ∷ []

-- `result.status !== 0`.
abbrev pub is_failure : Option ℕ → Bool
is_failure none = true
is_failure (some status) = elim (status == 0) [ true ↦ false | false ↦ true ]

-- `result.status ?? 1`.
abbrev pub code_of : Option ℕ → ℕ
code_of none = 1
code_of (some status) = status

abbrev pub is_format : Step → Bool
is_format format = true
is_format lint = false
is_format typecheck = false
is_format audit = false

abbrev pub after : Command → Hook → Hook
after command hook = record hook { spawned = command ∷ hook.spawned }

abbrev pub abort : Command → Option ℕ → Hook
abort command status = record { spawned = command ∷ []; exit_code = code_of status }

-- `spawn` gives the status that each process ends with.
module _ (spawn : Command → Option ℕ) where
  unfoldable pub run_steps : List Step → Hook
  run_steps [] = record { spawned = []; exit_code = 0 }
  run_steps (step ∷ rest) =
      let later = run_steps rest in
      if is_failure (spawn (check step))
      then abort (check step) (spawn (check step))
      else (if is_format step
          then (if is_failure (spawn restage)
              then after (check step) (abort restage (spawn restage))
              else after (check step) (after restage later))
          else after (check step) later)

  unfoldable pub run_pre_commit : Hook
  unfolding run_steps
  run_pre_commit = run_steps steps

  -- Commands one after the other up to the first that fails, whose code is the result.
  abbrev pub until_failure : List Command → Hook
  until_failure [] = record { spawned = []; exit_code = 0 }
  until_failure (command ∷ rest) =
      if is_failure (spawn command)
      then abort command (spawn command)
      else after command (until_failure rest)

  -- The commands of a list of steps.
  abbrev pub commands_of : List Step → List Command
  commands_of [] = []
  commands_of (step ∷ rest) =
      check step ∷ (if is_format step then restage ∷ commands_of rest else commands_of rest)

  -- The test of the re-staging after a step's process.
  staged :
      (command : Command) (rest : List Command)
      → (if is_failure (spawn command)
          then abort command (spawn command)
          else (if is_failure (spawn restage)
              then after command (abort restage (spawn restage))
              else after command (after restage (until_failure rest))))
        ≡ until_failure (command ∷ restage ∷ rest)
  staged command rest = elim (Bool-cases (is_failure (spawn restage))) [
    | inl fails ↦ rw fails refl
    | inr passes ↦ rw passes refl
  ]

  run_steps-until_failure : (list : List Step) → run_steps list ≡ until_failure (commands_of list)
  unfolding run_steps
  run_steps-until_failure [] = refl
  run_steps-until_failure (step ∷ rest) = elim (Bool-cases (is_format step)) [
    | inl formats ↦
        rw (formats, run_steps-until_failure rest) (staged (check step) (commands_of rest))
    | inr other ↦ rw (other, run_steps-until_failure rest) refl
  ]

code_of_failure : (status : Option ℕ) → is_failure status ≡ true → code_of status ≢ 0
code_of_failure none h = omega arith
code_of_failure (some n) h = ground arith

is_failure_iff : (status : Option ℕ) → (is_failure status ≡ false) ↔ (status ≡ some 0)
is_failure_iff none = grind arith
is_failure_iff (some n) = grind arith

until_failure-exit_code :
    (spawn : Command → Option ℕ) (commands : List Command)
    → ((until_failure spawn commands).exit_code ≡ 0)
      ↔ All (λ command. spawn command ≡ some 0) commands
until_failure-exit_code spawn [] = (λ h. tt, λ h. refl)
until_failure-exit_code spawn (command ∷ rest) = elim (Bool-cases (is_failure (spawn command))) [
  | inl fails ↦ rw fails (
    λ h. absurd (code_of_failure (spawn command) fails h),
    λ h. absurd (grind (arith, is_failure_iff (spawn command), h.0, fails)),
  )
  | inr passes ↦ rw passes (
    λ h. ((is_failure_iff (spawn command)).0 passes, (until_failure-exit_code spawn rest).0 h),
    λ h. (until_failure-exit_code spawn rest).1 h.1,
  )
]

-- The hook spawns the format, the re-staging, the lint, the type check and the audit in this order up
-- to the first that fails, and ends with that one's exit code, 1 where a signal ended it, or with 0
-- if none fails.
pub run_pre_commit_lem :
    (spawn : Command → Option ℕ)
    → run_pre_commit spawn
      ≡ until_failure spawn
          (check format ∷ restage ∷ check lint ∷ check typecheck ∷ check audit ∷ [])
unfolding run_pre_commit
run_pre_commit_lem spawn = run_steps-until_failure spawn steps

every :
    (P : Command → Type 0)
    → P (check format)
    → P restage
    → P (check lint)
    → P (check typecheck)
    → P (check audit)
    → (command : Command) → P command
every P f r l t a (check format) = f
every P f r l t a (check lint) = l
every P f r l t a (check typecheck) = t
every P f r l t a (check audit) = a
every P f r l t a restage = r

-- The hook passes exactly when every one of the five processes succeeds.
pub run_pre_commit-exit_code :
    (spawn : Command → Option ℕ)
    → ((run_pre_commit spawn).exit_code ≡ 0) ↔ ((command : Command) → spawn command ≡ some 0)
run_pre_commit-exit_code spawn = (
  λ h command.
      let (f, (r, (l, (t, (a, _))))) =
        (until_failure-exit_code spawn
            (check format ∷ restage ∷ check lint ∷ check typecheck ∷ check audit ∷ [])).0
          (sym (ap (λ hook. hook.exit_code) (run_pre_commit_lem spawn)) ∙ h) in
      every (λ c. spawn c ≡ some 0) f r l t a command,
  λ all.
      ap (λ hook. hook.exit_code) (run_pre_commit_lem spawn)
      ∙ (until_failure-exit_code spawn
            (check format ∷ restage ∷ check lint ∷ check typecheck ∷ check audit ∷ [])).1
          (
            all (check format),
            (all restage, (all (check lint), (all (check typecheck), (all (check audit), tt)))),
          ),
)
