-- ===== src/Tests/Chain.antt =====
-- Runs of packages/chain/chain-errors and packages/chain/papi-chain.
use predictor_common.Prelude.Text.{codes}
use predictor_common.Prelude.{
  ℕ, zero, suc, ◌<◌, ◌≡◌, refl, ◌↔◌, ◌⊎◌, inl, true, false, none, some, [], ◌∷◌, ◌++◌, arith,
}
use predictor_common.ChainErrors.{
  Thrown, retryable, caused, permanent, error, value, is_retryable, is_transient, classify, Outcome,
  returned, threw,
}
use predictor_common.ChainErrors.Classify.{
  IsClassified, IsTransient, message, is_retryable-classify_iff,
}
use predictor_common.ChainErrors.Retry.{RetryPolicy, attempted, with_retry}
use predictor_common.ChainErrors.Retry.Schedule.{schedule, Retries, with_retry-schedule}
use predictor_common.ChainErrors.Timeout.{fulfilled}
use predictor_common.PapiChain.Connection.{ws, fresh, connect, disconnect, on_status_changed}
use predictor_common.PapiChain.Connection.Reach.{
  Reach, start, next, uses, IsSound, reach-IsSound, here, later, late_report,
}
use predictor_common.PapiChain.Calls.{
  TxFinalized, submit_signed, submission, submit_signed-first, or_default,
  default_submit_timeout_ms,
}
use predictor_common.PapiChain.Submit.{
  best_block, finalized, complete, submit_unsigned, later_state, first_verdict,
  submit_unsigned-first,
}

classify_runs :
    (is_transient (codes "WebSocket closed") ≡ true)
    × (is_transient (codes "it Timed  Out") ≡ true)
    × (is_transient (codes "bad signature") ≡ false)
    × (classify (permanent (codes "no connection")) ≡ permanent (codes "no connection"))
    × (classify (value (codes "socket")) ≡ caused (codes "socket") (value (codes "socket")))
unfolding is_transient classify
classify_runs = (refl, refl, refl, refl, refl)

is_retryable-classify_iff_example : (is_retryable (classify (error (codes "socket"))) ≡ true) ↔ (
    (is_retryable (error (codes "socket")) ≡ true)
    ⊎ ((IsClassified (error (codes "socket")) → ⊥)
        × IsTransient (message (error (codes "socket")))))
is_retryable-classify_iff_example = is_retryable-classify_iff (error (codes "socket"))

-- Two failures, then a value.
abbrev op : ℕ → Outcome ℕ
op zero = threw (retryable (codes "down"))
op (suc zero) = threw (retryable (codes "down"))
op (suc (suc n)) = returned 7

abbrev policy : RetryPolicy
policy = record { max_retries = 4; base_delay_ms = 100 }

abbrev errors : ℕ → Thrown
errors n = retryable (codes "down")

op-Retries : (j : ℕ) → j < 2 → Retries (op j) (errors j)
op-Retries zero h = (refl, refl)
op-Retries (suc zero) h = (refl, refl)
op-Retries (suc (suc j)) h = absurd (omega arith)

with_retry-schedule_example :
    with_retry op policy
    ≡ record { events = schedule 100 errors 0 2 ++ attempted ∷ []; outcome = op 2 }
with_retry-schedule_example =
    with_retry-schedule op policy 2 errors (omega arith) op-Retries (inl tt)

connected : Reach (ws true) (connect (ws true) fresh)
connected = next start uses

reach-IsSound_example : IsSound (ws true) (connect (ws true) fresh)
reach-IsSound_example = reach-IsSound connected

-- The callback of the first connection, once there is a second.
late_report_example :
    on_status_changed (ws true) 1 2 (connect (ws true) (disconnect (connect (ws true) fresh)))
    ≡ connect (ws true) (disconnect (connect (ws true) fresh))
unfolding connect
late_report_example = late_report 1 2 connected (inl refl) (later here uses)

abbrev failed_dispatch : TxFinalized
failed_dispatch = record {
  tx_hash = codes "0x01";
  ok = false;
  dispatch_error = codes "connection";
  block_hash = codes "0x02";
  block_number = 9;
  block_index = 1;
}

submit_signed-first_example :
    submit_signed none (codes "transfer") (fulfilled failed_dispatch ∷ [])
    ≡ some (
        submission
          (or_default none default_submit_timeout_ms)
          (codes "transfer")
          (fulfilled failed_dispatch))
submit_signed-first_example =
    submit_signed-first none (codes "transfer") (fulfilled failed_dispatch) []

submit_unsigned-first_example :
    submit_unsigned
      (codes "beat")
      (predictor_common.PapiChain.Submit.next (finalized true []) ∷ [])
      (complete ∷ [])
    ≡ later_state (codes "beat") (
        first_verdict
          (codes "beat")
          (predictor_common.PapiChain.Submit.next (finalized true []) ∷ complete ∷ []))
submit_unsigned-first_example =
    submit_unsigned-first (codes "beat")
      (predictor_common.PapiChain.Submit.next (finalized true []) ∷ []) (complete ∷ [])
