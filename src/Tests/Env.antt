-- ===== src/Tests/Env.antt =====
-- Runs of packages/service/env/src/index.ts.
use predictor_common.Prelude.Text.{Text, codes}
use predictor_common.Prelude.Int.{pos}
use predictor_common.Prelude.{◌≡◌, refl, Bool, true, false, none, some, List, [], ◌∷◌, inl}
use predictor_common.Env.{
  Issue, value_of, rejected, issue, blank_as_undefined, port_env, bool_env, format_issues,
  parse_env,
}

blank_test : bool_env true (some []) ≡ value_of true
unfolding bool_env blank_as_undefined
blank_test = refl

off_test : bool_env true (some (codes " Off ")) ≡ value_of false
unfolding bool_env blank_as_undefined
off_test = refl

typo_test :
    bool_env true (some (codes "ture"))
    ≡ issue (codes "expected a boolean (true/1/yes/on/false/0/no/off), got \"ture\"")
unfolding bool_env blank_as_undefined
typo_test = refl

port_test : port_env (λ s. some (pos 70000)) (pos 80) (some (codes "70000")) ≡ rejected
unfolding port_env blank_as_undefined
port_test = refl

abbrev issues : List Issue
issues =
    record { path = codes "PORT" ∷ []; message = codes "required" }
    ∷ record { path = []; message = codes "odd" }
    ∷ []

parse_env_test :
    parse_env {S = List Text} {A = Bool} (λ source. inl issues) none [] none
    ≡ inl (codes "invalid environment: PORT: required; (root): odd")
unfolding parse_env format_issues
parse_env_test = refl
