-- ===== src/ChainErrors/Retry/Schedule.antt =====
-- What a run of `withRetry` shows, in packages/chain/chain-errors/src/index.ts.
use native.Mathlib.Nat.{mul-le-mul_left, pow-le-pow_right}
use predictor_common.Prelude.{
  ℕ, zero, suc, ◌+◌, ◌-◌, ◌*◌, ◌^◌, ◌<◌, ◌≤◌, ◌≡◌, refl, ◌≢◌, ◌⊎◌, inl, inr, true, false, Option,
  none, some, List, [], ◌∷◌, ◌++◌, ◌==◌, ==_iff, ne→==, leb, All, Bool-cases, arith,
}
use predictor_common.ChainErrors.{Thrown, is_retryable, Outcome, returned, threw}
use predictor_common.ChainErrors.Retry.{
  RetryPolicy, backoff_delay_ms, max_backoff_delay_ms, Event, attempted, retried, slept, Run,
  before, retry_loop, with_retry,
}

-- The events of `k` retries from attempt `i` on: the attempt, the hook with the attempt's number from
-- one, and a sleep that doubles each time.
abbrev pub schedule : ℕ → (ℕ → Thrown) → ℕ → ℕ → List Event
schedule base errors i zero = []
schedule base errors i (suc k) =
    attempted
    ∷ retried (i + 1) (base * 2 ^ i) (errors i)
    ∷ slept (base * 2 ^ i)
    ∷ schedule base errors (i + 1) k

abbrev pub Retries : {A : Type 0} → Outcome A → Thrown → Type 0
Retries o e = (o ≡ threw e) × (is_retryable e ≡ true)

-- Not a retryable throw.
abbrev pub IsFinal : {A : Type 0} → Outcome A → Type 0
IsFinal (returned a) = Unit
IsFinal (threw e) = is_retryable e ≡ false

module _ {A : Type 0} (op : ℕ → Outcome A) (policy : RetryPolicy) where
  -- The loop stops at an outcome that is final, or at the last attempt.
  loop_stops :
      (rounds n : ℕ) (last : Option Thrown) (o : Outcome A)
      → op n ≡ o
      → IsFinal o ⊎ (n + 1 ≡ policy.max_retries)
      → retry_loop op policy (suc rounds) n last ≡ record { events = attempted ∷ []; outcome = o }
  unfolding retry_loop
  loop_stops rounds n last (returned a) e stop = rw (e, retry_loop)
  loop_stops rounds n last (threw f) e (inl final) = rw (e, final, retry_loop)
  loop_stops rounds n last (threw f) e (inr end) = elim (Bool-cases (is_retryable f)) [
    | inl again ↦ rw (e, again, (==_iff (n + 1) policy.max_retries).1 end, retry_loop)
    | inr final ↦ rw (e, final, retry_loop)
  ]

  loop_continues :
      (rounds i : ℕ) (last : Option Thrown) (errors : ℕ → Thrown)
      → Retries (op i) (errors i)
      → i + 1 < policy.max_retries
      → retry_loop op policy (suc rounds) i last
        ≡ before
            (schedule policy.base_delay_ms errors i 1)
            (retry_loop op policy rounds (i + 1) (some (errors i)))
  unfolding retry_loop backoff_delay_ms
  loop_continues rounds i last errors (thrown, again) more =
      rw (thrown, again, ne→== (i + 1) policy.max_retries (omega arith), retry_loop)

  retry_loop-schedule :
      (k rounds i n : ℕ) (last : Option Thrown) (errors : ℕ → Thrown)
      → k < rounds
      → i + k ≡ n
      → n < policy.max_retries
      → ((j : ℕ) → i ≤ j → j < n → Retries (op j) (errors j))
      → IsFinal (op n) ⊎ (n + 1 ≡ policy.max_retries)
      → retry_loop op policy rounds i last ≡ record {
        events = schedule policy.base_delay_ms errors i k ++ attempted ∷ [];
        outcome = op n;
      }
  retry_loop-schedule k zero i n last errors h _ _ _ _ = elim h [ ]
  retry_loop-schedule zero (suc rounds) i n last errors h e fits again stop =
      let e' : i ≡ n = omega arith in rw e' (loop_stops rounds n last (op n) refl stop)
  retry_loop-schedule (suc k) (suc rounds) i n last errors h e fits again stop = rw (
    loop_continues rounds i last errors (again i (omega arith) (omega arith)) (omega arith),
    retry_loop-schedule k rounds (i + 1) n (some (errors i)) errors (omega arith) (omega arith) fits
        (λ j low high. again j (omega arith) high) stop,
  )

-- Where the calls before number n all throw a retryable error, and call n does not or is the last
-- that the policy allows, the run makes n retries and the outcome is that of call n: one attempt and
-- one sleep for each retry, the sleeps doubling from the base delay, then a last attempt and no sleep.
pub with_retry-schedule :
    {A : Type 0} (op : ℕ → Outcome A) (policy : RetryPolicy) (n : ℕ) (errors : ℕ → Thrown)
    → n < policy.max_retries
    → ((j : ℕ) → j < n → Retries (op j) (errors j))
    → IsFinal (op n) ⊎ (n + 1 ≡ policy.max_retries)
    → with_retry op policy ≡ record {
      events = schedule policy.base_delay_ms errors 0 n ++ attempted ∷ [];
      outcome = op n;
    }
unfolding with_retry
with_retry-schedule op policy n errors fits again stop =
    retry_loop-schedule op policy n policy.max_retries 0 n none errors fits (omega arith) fits
      (λ j _. again j) stop

abbrev pub IsWithin : ℕ → Event → Type 0
IsWithin bound attempted = Unit
IsWithin bound (retried n delay_ms e) = delay_ms ≤ bound
IsWithin bound (slept delay_ms) = delay_ms ≤ bound

abbrev pub count_attempts : List Event → ℕ
count_attempts [] = 0
count_attempts (attempted ∷ es) = suc (count_attempts es)
count_attempts (retried n delay_ms e ∷ es) = count_attempts es
count_attempts (slept delay_ms ∷ es) = count_attempts es

backoff-le-max :
    (policy : RetryPolicy) (i : ℕ)
    → i + 1 < policy.max_retries
    → backoff_delay_ms policy i ≤ max_backoff_delay_ms policy
unfolding backoff_delay_ms max_backoff_delay_ms
backoff-le-max policy i h =
    let two : leb 2 policy.max_retries ≡ true = ground arith in
    let le : i ≤ policy.max_retries - 2 = omega arith in
    rw two (mul-le-mul_left policy.base_delay_ms (pow-le-pow_right (omega arith) le))

module _ {A : Type 0} (op : ℕ → Outcome A) (policy : RetryPolicy) where
  abbrev Bounded : ℕ → Run A → Type 0
  Bounded rounds run =
      All (IsWithin (max_backoff_delay_ms policy)) run.events × (count_attempts run.events ≤ rounds)

  retry_step-Bounded :
      (rounds i : ℕ) (last : Option Thrown) (o : Outcome A)
      → op i ≡ o
      → i + suc rounds ≡ policy.max_retries
      → ((l : Option Thrown) → Bounded rounds (retry_loop op policy rounds (i + 1) l))
      → Bounded (suc rounds) (retry_loop op policy (suc rounds) i last)
  unfolding retry_loop
  retry_step-Bounded rounds i last (returned a) e total ih =
      rw (e, retry_loop) ((tt, tt), omega arith)
  retry_step-Bounded rounds i last (threw f) e total ih = elim (Bool-cases (is_retryable f)) [
    | inr final ↦ rw (e, final, retry_loop) ((tt, tt), omega arith)
    | inl again ↦ elim (Bool-cases (i + 1 == policy.max_retries)) [
      | inl end ↦ rw (e, again, end, retry_loop) ((tt, tt), omega arith)
      | inr more ↦
          let ne : i + 1 ≢ policy.max_retries = ground arith in
          let fits = backoff-le-max policy i (omega arith) in
          let (within, few) = ih (some f) in
          rw (e, again, more, retry_loop) ((tt, (fits, (fits, within))), omega arith)
    ]
  ]

  retry_loop-Bounded :
      (rounds i : ℕ) (last : Option Thrown)
      → i + rounds ≡ policy.max_retries
      → Bounded rounds (retry_loop op policy rounds i last)
  unfolding retry_loop
  retry_loop-Bounded zero i last e = (tt, omega arith)
  retry_loop-Bounded (suc rounds) i last e =
      retry_step-Bounded rounds i last (op i) refl e
        (λ l. retry_loop-Bounded rounds (i + 1) l (omega arith))

-- Every sleep of a run, and every delay that a hook is told, is at most `maxBackoffDelayMs`, and the
-- attempts are at most the policy's.
pub with_retry_bounded :
    {A : Type 0} (op : ℕ → Outcome A) (policy : RetryPolicy)
    → All (IsWithin (max_backoff_delay_ms policy)) (with_retry op policy).events
      × (count_attempts (with_retry op policy).events ≤ policy.max_retries)
unfolding with_retry
with_retry_bounded op policy = retry_loop-Bounded op policy policy.max_retries 0 none (omega arith)
