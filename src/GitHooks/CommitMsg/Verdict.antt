-- ===== src/GitHooks/CommitMsg/Verdict.antt =====
-- Which commit messages the commit-msg step of packages/tooling/git-hooks/src/run.ts lets through.
use predictor_common.Prelude.Text.{Text, starts_with, split}
use predictor_common.Prelude.{
  ℕ, ◌≡◌, ◌≢◌, refl, ap, ◌∙◌, ◌↔◌, ◌⊎◌, inl, inr, Bool, true, false, Bool-cases, Option, none, some,
  [], ◌∷◌, any, arith, if◌then◌else◌,
}
use predictor_common.GitHooks.CommitMsg.{
  passthrough_prefixes, is_conventional, find_subject, check_subject, check_found, check_raw,
  run_commit_msg,
}
use predictor_common.GitHooks.CommitMsg.Patterns.{Conventional, is_conventional_iff}
use predictor_common.GitHooks.CommitMsg.Subjects.{
  Skipped, Subject, find_subject-Subject, Subject-find_subject,
}

-- It begins with one of the prefixes.
abbrev pub Passes : Text → Type 0
Passes subject = (any (starts_with subject) passthrough_prefixes ≡ true) ⊎ Conventional subject

check_subject_iff : (subject : Text) → (check_subject subject ≡ 0) ↔ Passes subject
check_subject_iff subject = elim (Bool-cases (any (starts_with subject) passthrough_prefixes)) [
  | inl passes ↦ rw passes (λ h. inl refl, λ h. refl)
  | inr other ↦ elim (Bool-cases (is_conventional subject)) [
    | inl conventional ↦
        rw (other, conventional)
          (λ h. inr ((is_conventional_iff subject).0 conventional), λ h. refl)
    | inr odd ↦
        rw (other, odd)
          (
            λ h. absurd (omega (arith, h)),
            elim [ inl h ↦ cc | inr h ↦ absurd (cc ((is_conventional_iff subject).1 h, odd)) ],
          )
  ]
]

check_found_iff :
    (found : Option Text)
    → (check_found found ≡ 0)
      ↔ ((subject : Text) × (found ≡ some subject) × (subject ≢ []) × Passes subject)
check_found_iff none = ((λ h. absurd (omega (arith, h))), λ (subject, e, filled, passes). cc)
check_found_iff (some []) =
    ((λ h. absurd (omega (arith, h))), λ (subject, e, filled, passes). absurd (filled (cc e)))
check_found_iff (some (c ∷ s)) = (
  (λ h. (c ∷ s, refl, (λ e. cc e), (check_subject_iff (c ∷ s)).0 h)),
  λ (subject, e, filled, passes).
      let same : c ∷ s ≡ subject = cc e in
      ap check_subject same ∙ (check_subject_iff subject).1 passes,
)

filled_subject : (subject : Text) → ¬ Skipped subject → subject ≢ []
filled_subject [] h = absurd (h (inl tt))
filled_subject (c ∷ s) h = λ e. cc e

-- A message that can be read, with its subject, which passes.
abbrev pub Accepted : Option Text → Type 0
Accepted content =
    (raw : Text) × (subject : Text) × (content ≡ some raw)
    × Subject (split 10 raw) subject
    × Passes subject

check_raw_iff : (content : Option Text) → (check_raw content ≡ 0) ↔ Accepted content
check_raw_iff none = ((λ h. absurd (omega (arith, h))), λ (raw, subject, e, first, passes). cc)
check_raw_iff (some raw) = (
  (λ h.
      let (subject, found, filled, passes) = (check_found_iff (find_subject (split 10 raw))).0 h in
      (raw, subject, refl, find_subject-Subject (split 10 raw) subject found, passes)),
  λ (raw', subject, e, (before, after, lines, blank, here), passes).
      let same : raw ≡ raw' = cc e in
      let found : find_subject (split 10 raw) ≡ some subject =
        ap (λ r. find_subject (split 10 r)) same
        ∙ ap find_subject lines
        ∙ Subject-find_subject before after subject blank here in
      (check_found_iff (find_subject (split 10 raw))).1
        (subject, found, filled_subject subject here, passes),
)

abbrev IsCode : ℕ → Type 0
IsCode n = (n ≡ 0) ⊎ (n ≡ 1)

two_tests : (a b : Bool) → IsCode (if a then 0 else if b then 0 else 1)
two_tests true b = inl refl
two_tests false true = inl refl
two_tests false false = inr refl

check_subject_code : (subject : Text) → (check_subject subject ≡ 0) ⊎ (check_subject subject ≡ 1)
check_subject_code subject =
    two_tests (any (starts_with subject) passthrough_prefixes) (is_conventional subject)

check_found_code : (found : Option Text) → (check_found found ≡ 0) ⊎ (check_found found ≡ 1)
check_found_code none = inr refl
check_found_code (some []) = inr refl
check_found_code (some (c ∷ s)) = check_subject_code (c ∷ s)

check_raw_code : (content : Option Text) → (check_raw content ≡ 0) ⊎ (check_raw content ≡ 1)
check_raw_code none = inr refl
check_raw_code (some raw) = check_found_code (find_subject (split 10 raw))

-- With a path that is not empty, the commit-msg step ends with 0 or 1. It is 0 exactly when the file can
-- be read and has a line that is not blank and does not begin with '#', and the first such line
-- begins with one of the prefixes or is spelt by the expression for Conventional Commits.
pub run_commit_msg_iff :
    (read_file : Text → Option Text) (path : Text)
    → path ≢ []
    → ((run_commit_msg read_file (some path) ≡ 0) ↔ Accepted (read_file path))
      × ((run_commit_msg read_file (some path) ≡ 0) ⊎ (run_commit_msg read_file (some path) ≡ 1))
unfolding run_commit_msg
run_commit_msg_iff read_file [] h = absurd (h refl)
run_commit_msg_iff read_file (c ∷ path) h =
    (check_raw_iff (read_file (c ∷ path)), check_raw_code (read_file (c ∷ path)))
