-- ===== src/ChainErrors/Retry.antt =====
-- `withRetry` and the backoff of packages/chain/chain-errors/src/index.ts. The calls of `op` are
-- given by what each settles with, the first at 0; what the caller sees is the list of events: the
-- two hooks and the sleeps. A count of retries or a delay is a natural number.
pub mod Schedule
use predictor_common.Prelude.Text.{codes}
use predictor_common.Prelude.{
  ℕ, zero, suc, ◌+◌, ◌-◌, ◌*◌, ◌^◌, ◌<◌, ◌≤◌, ◌≡◌, refl, ◌≢◌, Bool, true, false, Option, none, some,
  List, [], ◌∷◌, ◌++◌, ◌==◌, leb, if◌then◌else◌, All, length, arith,
}
use predictor_common.ChainErrors.{Thrown, error, is_retryable, Outcome, returned, threw}

pub record RetryPolicy : Type 0 where
  pub max_retries : ℕ
  pub base_delay_ms : ℕ

unfoldable pub backoff_delay_ms : RetryPolicy → ℕ → ℕ
backoff_delay_ms policy attempt = policy.base_delay_ms * 2 ^ attempt

unfoldable pub max_backoff_delay_ms : RetryPolicy → ℕ
max_backoff_delay_ms policy =
    if leb 2 policy.max_retries then backoff_delay_ms policy (policy.max_retries - 2) else 0

pub data Event : Type 0 where
  attempted : Event
  retried : (attempt delay_ms : ℕ) → Thrown → Event
  slept : ℕ → Event

pub record Run (A : Type 0) : Type 0 where
  pub events : List Event
  pub outcome : Outcome A

-- The throw after the loop.
abbrev pub last_throw : {A : Type 0} → Option Thrown → Outcome A
last_throw none = threw (error (codes "undefined"))
last_throw (some e) = threw e

abbrev pub before : {A : Type 0} → List Event → Run A → Run A
before es run = record { events = es ++ run.events; outcome = run.outcome }

module _ {A : Type 0} (op : ℕ → Outcome A) (policy : RetryPolicy) where
  -- The `for` loop, by the rounds left.
  pub retry_loop : ℕ → ℕ → Option Thrown → Run A
  retry_loop zero attempt last = record { events = []; outcome = last_throw last }
  retry_loop (suc rounds) attempt last = elim (op attempt) [
    | returned a ↦ record { events = attempted ∷ []; outcome = returned a }
    | threw e ↦ elim (is_retryable e) [
      | false ↦ record { events = attempted ∷ []; outcome = threw e }
      | true ↦ elim (attempt + 1 == policy.max_retries) [
        | true ↦ record { events = attempted ∷ []; outcome = last_throw (some e) }
        | false ↦
            let delay_ms = backoff_delay_ms policy attempt in
            before (attempted ∷ retried (attempt + 1) delay_ms e ∷ slept delay_ms ∷ [])
              (retry_loop rounds (attempt + 1) (some e))
      ]
    ]
  ]

  unfoldable pub with_retry : Run A
  unfolding retry_loop
  with_retry = retry_loop policy.max_retries 0 none
