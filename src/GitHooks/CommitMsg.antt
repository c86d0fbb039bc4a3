-- ===== src/GitHooks/CommitMsg.antt =====
-- The commit-msg step of packages/tooling/git-hooks/src/run.ts, and the dispatch of the steps. A file
-- is what reading it gives, `none` for an error.
pub mod Patterns
pub mod Subjects
pub mod Verdict
use predictor_common.Prelude.Text.{Text, codes, text_eq, trim, starts_with, split, is_space}
use predictor_common.Prelude.{
  ℕ, Bool, true, false, not, ◌&&◌, ◌||◌, ◌==◌, Option, none, some, List, [], ◌∷◌, ◌++◌, map, any,
  leb, ltb, length, if◌then◌else◌,
}
use predictor_common.GitHooks.PreCommit.{Command, run_pre_commit}

abbrev pub conventional_types : List Text
conventional_types =
    codes "feat"
    ∷ codes "fix"
    ∷ codes "refactor"
    ∷ codes "perf"
    ∷ codes "deps"
    ∷ codes "docs"
    ∷ codes "chore"
    ∷ codes "test"
    ∷ codes "build"
    ∷ codes "ci"
    ∷ codes "style"
    ∷ codes "revert"
    ∷ []

abbrev pub passthrough_prefixes : List Text
passthrough_prefixes =
    codes "Merge " ∷ codes "Revert " ∷ codes "fixup!" ∷ codes "squash!" ∷ codes "amend!" ∷ []

-- A class of code units that stands once, or at least once.
pub data Part : Type 0 where
  one many : (ℕ → Bool) → Part

abbrev pub is_not_stop : ℕ → Bool
is_not_stop c = not (c == b'.')

-- `.`: all but the line terminators.
abbrev pub is_any : ℕ → Bool
is_any c = not (c == 10 || c == 13 || c == 8232 || c == 8233)

abbrev pub is_lower : ℕ → Bool
is_lower c = leb b'a' c && leb c b'z'

-- `[^)\s]`.
abbrev pub is_scope : ℕ → Bool
is_scope c = not (c == b')' || is_space c)

abbrev pub word : Text → List Part
word s = map (λ c. one (λ d. d == c)) s

abbrev pub scope_part : Bool → List Part
scope_part false = []
scope_part true = word (codes "(") ++ (many is_scope ∷ word (codes ")"))

abbrev pub bang_part : Bool → List Part
bang_part false = []
bang_part true = word (codes "!")

-- One way through `CONVENTIONAL_RE`: a type, with the scope or without, with the mark or without.
abbrev pub parts_of : Text → Bool → Bool → List Part
parts_of kind scope bang =
    word kind
    ++ (scope_part scope
        ++ (bang_part bang
            ++ (word (codes ": ") ++ (one is_lower ∷ many is_any ∷ one is_not_stop ∷ []))))

-- The whole text is spelt by the parts.
unfoldable pub accepts : List Part → Text → Bool
accepts [] [] = true
accepts [] (c ∷ s) = false
accepts (one k ∷ parts) [] = false
accepts (one k ∷ parts) (c ∷ s) = k c && accepts parts s
accepts (many k ∷ parts) [] = false
accepts (many k ∷ parts) (c ∷ s) = k c && (accepts parts s || accepts (many k ∷ parts) s)

abbrev pub accepts_type : Text → Text → Bool
accepts_type s kind =
    accepts (parts_of kind false false) s
    || (accepts (parts_of kind false true) s
        || (accepts (parts_of kind true false) s || accepts (parts_of kind true true) s))

unfoldable pub is_conventional : Text → Bool
unfolding accepts
is_conventional s = any (accepts_type s) conventional_types

abbrev pub is_subject : Text → Bool
is_subject line = ltb 0 (length (trim line)) && not (starts_with line (codes "#"))

abbrev pub find_subject : List Text → Option Text
find_subject [] = none
find_subject (line ∷ lines) = elim (is_subject line) [
  | true ↦ some line
  | false ↦ find_subject lines
]

abbrev pub check_subject : Text → ℕ
check_subject subject =
    if any (starts_with subject) passthrough_prefixes
    then 0
    else if is_conventional subject
    then 0
    else 1

abbrev pub check_found : Option Text → ℕ
check_found none = 1
check_found (some []) = 1
check_found (some (c ∷ s)) = check_subject (c ∷ s)

abbrev pub check_raw : Option Text → ℕ
check_raw none = 1
check_raw (some raw) = check_found (find_subject (split 10 raw))

module _ (read_file : Text → Option Text) where
  unfoldable pub run_commit_msg : Option Text → ℕ
  run_commit_msg none = 2
  run_commit_msg (some []) = 2
  run_commit_msg (some (c ∷ path)) = check_raw (read_file (c ∷ path))

  abbrev pub first_arg : List Text → Option Text
  first_arg [] = none
  first_arg (arg ∷ args) = some arg

  unfoldable pub run : (Command → Option ℕ) → Text → List Text → ℕ
  run spawn step args =
      if text_eq step (codes "pre-commit")
      then (run_pre_commit spawn).exit_code
      else if text_eq step (codes "commit-msg")
      then run_commit_msg (first_arg args)
      else 2
