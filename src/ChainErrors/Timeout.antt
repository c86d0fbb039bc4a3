-- ===== src/ChainErrors/Timeout.antt =====
-- `withTimeout` of packages/chain/chain-errors/src/index.ts: the promise, the timer and what happens
-- to them, one event after another. A label is a text, and so is the number in the message.
use predictor_common.Prelude.Text.{Text, codes}
use predictor_common.Prelude.Digits.{decimal}
use predictor_common.Prelude.{
  ℕ, ◌≡◌, refl, Bool, true, false, Option, none, some, List, [], ◌∷◌, ◌++◌,
}
use predictor_common.ChainErrors.{Thrown, retryable, Outcome, returned, threw}

-- The operation settles, or the timer fires.
pub data Signal (A : Type 0) : Type 0 where
  fulfilled : A → Signal A
  rejected : Thrown → Signal A
  fired : Signal A

-- The promise that `withTimeout` returned, pending as `none`, and whether the timer is armed.
pub record Watch (A : Type 0) : Type 0 where
  pub result : Option (Outcome A)
  pub armed : Bool

abbrev pub started : {A : Type 0} → Watch A
started = record { result = none; armed = true }

-- A promise keeps the first of `resolve` and `reject`.
abbrev pub settle : {A : Type 0} → Outcome A → Option (Outcome A) → Option (Outcome A)
settle o none = some o
settle o (some first) = some first

unfoldable pub timeout_error : Text → ℕ → Thrown
timeout_error label ms =
    retryable (label ++ (codes " timed out after " ++ (decimal ms ++ codes "ms")))

module _ {A : Type 0} (label : Text) (ms : ℕ) where
  unfoldable pub observe : Watch A → Signal A → Watch A
  observe w (fulfilled value) = record { result = settle (returned value) w.result; armed = false }
  observe w (rejected e) = record { result = settle (threw e) w.result; armed = false }
  observe w fired = elim w.armed [
    | false ↦ w
    | true ↦ record { result = settle (threw (timeout_error label ms)) w.result; armed = false }
  ]

  unfoldable pub with_timeout : Watch A → List (Signal A) → Watch A
  with_timeout w [] = w
  with_timeout w (s ∷ ss) = with_timeout (observe w s) ss

  -- What the first event makes of the call.
  abbrev pub first_outcome : Signal A → Outcome A
  first_outcome (fulfilled value) = returned value
  first_outcome (rejected e) = threw e
  first_outcome fired = threw (timeout_error label ms)

  with_timeout_settled :
      (o : Outcome A) (ss : List (Signal A))
      → with_timeout (record { result = some o; armed = false }) ss
        ≡ record { result = some o; armed = false }
  unfolding with_timeout observe
  with_timeout_settled o [] = refl
  with_timeout_settled o (fulfilled value ∷ ss) = with_timeout_settled o ss
  with_timeout_settled o (rejected e ∷ ss) = with_timeout_settled o ss
  with_timeout_settled o (fired ∷ ss) = with_timeout_settled o ss

-- The first event decides: the value or the error of an operation that settles before the timer, a
-- retryable error if the timer is first. The timer is then off, and no later event changes anything.
pub with_timeout-first :
    {A : Type 0} (label : Text) (ms : ℕ) (s : Signal A) (ss : List (Signal A))
    → with_timeout label ms started (s ∷ ss)
      ≡ record { result = some (first_outcome label ms s); armed = false }
unfolding with_timeout observe
with_timeout-first label ms (fulfilled value) ss = with_timeout_settled label ms (returned value) ss
with_timeout-first label ms (rejected e) ss = with_timeout_settled label ms (threw e) ss
with_timeout-first label ms fired ss =
    with_timeout_settled label ms (threw (timeout_error label ms)) ss
