-- ===== src/GitHooks/CommitMsg/Subjects.antt =====
-- Which line of a commit message the commit-msg step of packages/tooling/git-hooks/src/run.ts takes for
-- its subject.
use predictor_common.Prelude.Trim.{IsBlank, trim-IsBlank_iff}
use predictor_common.Prelude.Text.{Text, codes, trim, starts_with}
use predictor_common.Prelude.{
  ◌≡◌, refl, sym, ap, ◌∙◌, ◌↔◌, ◌⊎◌, inl, inr, true, false, Bool-cases, some, List, [], ◌∷◌, ◌++◌,
  All, and_iff, ◌==◌, ==_iff, ltb, ltb→le, length, suc, arith,
}
use predictor_common.GitHooks.CommitMsg.{is_subject, find_subject}

-- White space only, or a comment.
abbrev pub Skipped : Text → Type 0
Skipped line = IsBlank line ⊎ ((rest : Text) × (line ≡ b'#' ∷ rest))

-- The first of the lines that is not skipped.
abbrev pub Subject : List Text → Text → Type 0
Subject lines subject =
    (before : List Text) × (after : List Text) × (lines ≡ before ++ (subject ∷ after))
    × All Skipped before
    × ¬ Skipped subject

is_filled_iff : (line : Text) → (ltb 0 (length (trim line)) ≡ false) ↔ IsBlank line
is_filled_iff line = (
  λ h. (trim-IsBlank_iff line).0 (no_length (trim line) h),
  λ blank. ap (λ t. ltb 0 (length t)) ((trim-IsBlank_iff line).1 blank),
)
  where
    no_length : (t : Text) → ltb 0 (length t) ≡ false → t ≡ []
    no_length [] h = refl
    no_length (c ∷ t) h = absurd (omega (arith, ltb→le 0 (suc (length t)) h))

is_comment_iff :
    (line : Text) → (starts_with line (codes "#") ≡ true) ↔ ((rest : Text) × (line ≡ b'#' ∷ rest))
is_comment_iff [] = ((λ h. absurd (cc h)), λ (rest, e). absurd (cc e))
is_comment_iff (c ∷ line) = (
  (λ h. (line, ap (λ d. d ∷ line) ((==_iff c b'#').0 ((and_iff (c == b'#') true).0 h).0))),
  λ (rest, e).
      let same : c ≡ b'#' = cc e in (and_iff (c == b'#') true).1 ((==_iff c b'#').1 same, refl),
)

is_subject_iff : (line : Text) → (is_subject line ≡ false) ↔ Skipped line
is_subject_iff line = elim (Bool-cases (ltb 0 (length (trim line)))) [
  | inr blank ↦ rw blank ((λ h. inl ((is_filled_iff line).0 blank)), λ h. refl)
  | inl filled ↦ elim (Bool-cases (starts_with line (codes "#"))) [
    | inl comment ↦ rw (filled, comment) ((λ h. inr ((is_comment_iff line).0 comment)), λ h. refl)
    | inr other ↦
        rw (filled, other)
          (
            (λ h. absurd (cc h)),
            elim [
              | inl blank ↦ cc ((is_filled_iff line).1 blank, filled)
              | inr comment ↦ cc ((is_comment_iff line).1 comment, other)
            ],
          )
  ]
]

is_subject-Skipped : (line : Text) → is_subject line ≡ true → ¬ Skipped line
is_subject-Skipped line here skipped = cc (here, (is_subject_iff line).1 skipped)

Skipped-is_subject : (line : Text) → ¬ Skipped line → is_subject line ≡ true
Skipped-is_subject line kept = elim (Bool-cases (is_subject line)) [
  | inl here ↦ here
  | inr skipped ↦ absurd (kept ((is_subject_iff line).0 skipped))
]

find_subject-here :
    (line : Text) (lines : List Text)
    → is_subject line ≡ true
    → find_subject (line ∷ lines) ≡ some line
find_subject-here line lines here = rw (here, find_subject) refl

find_subject-later :
    (line : Text) (lines : List Text)
    → is_subject line ≡ false
    → find_subject (line ∷ lines) ≡ find_subject lines
find_subject-later line lines skipped = rw (skipped, find_subject) refl

Subject-here :
    (line : Text) (lines : List Text) (subject : Text)
    → is_subject line ≡ true
    → line ≡ subject
    → Subject (line ∷ lines) subject
Subject-here line lines subject here same = (
  [],
  lines,
  ap (λ l. l ∷ lines) same,
  tt,
  is_subject-Skipped subject (sym (ap is_subject same) ∙ here),
)

pub find_subject-Subject :
    (lines : List Text) (subject : Text) → find_subject lines ≡ some subject → Subject lines subject
find_subject-Subject [] subject h = cc
find_subject-Subject (line ∷ lines) subject h = elim (Bool-cases (is_subject line)) [
  | inl here ↦
      let found : some line ≡ some subject = sym (find_subject-here line lines here) ∙ h in
      Subject-here line lines subject here cc
  | inr skipped ↦
      let (before, after, e, blank, here) =
        find_subject-Subject lines subject (sym (find_subject-later line lines skipped) ∙ h) in
      (line ∷ before, after, ap (λ ls. line ∷ ls) e, ((is_subject_iff line).0 skipped, blank), here)
]

pub Subject-find_subject :
    (before after : List Text) (subject : Text)
    → All Skipped before
    → ¬ Skipped subject
    → find_subject (before ++ (subject ∷ after)) ≡ some subject
Subject-find_subject [] after subject h here =
    find_subject-here subject after (Skipped-is_subject subject here)
Subject-find_subject (line ∷ before) after subject (skipped, h) here =
    find_subject-later line (before ++ (subject ∷ after)) ((is_subject_iff line).1 skipped)
    ∙ Subject-find_subject before after subject h here
