-- ===== src/PapiChain/Calls.antt =====
-- `read`, `submitSigned` and `finalizedHeight` of packages/chain/papi-chain/src/index.ts: a call
-- raced against its timer, and its error classified. A dispatch error is given by the text that
-- `stringify` makes of it.
use predictor_common.Prelude.Text.{Text, codes}
use predictor_common.Prelude.Digits.{decimal}
use predictor_common.Prelude.{
  ℕ, ◌≡◌, refl, inl, inr, Bool, true, false, Bool-cases, Option, none, some, List, ◌∷◌, ◌++◌,
  if◌then◌else◌,
}
use predictor_common.ChainErrors.{Thrown, permanent, retryable, Outcome, returned, threw, classify}
use predictor_common.ChainErrors.Timeout.{
  Signal, fulfilled, rejected, fired, started, with_timeout, timeout_error, first_outcome,
  with_timeout-first,
}

abbrev pub default_read_timeout_ms : ℕ
default_read_timeout_ms = 15_000

abbrev pub default_submit_timeout_ms : ℕ
default_submit_timeout_ms = 120_000

abbrev pub or_default : Option ℕ → ℕ → ℕ
or_default none d = d
or_default (some n) d = n

-- `throw classifyChainError(err)`.
abbrev pub reclassify : {A : Type 0} → Outcome A → Outcome A
reclassify (returned a) = returned a
reclassify (threw e) = threw (classify e)

abbrev pub pending_map : {A B : Type 0} → (A → Outcome B) → Option (Outcome A) → Option (Outcome B)
pending_map f none = none
pending_map f (some (returned a)) = some (f a)
pending_map f (some (threw e)) = some (threw e)

abbrev pub caught : {A : Type 0} → Option (Outcome A) → Option (Outcome A)
caught none = none
caught (some o) = some (reclassify o)

-- `none` while neither the operation nor the timer has settled.
unfoldable pub read : {A : Type 0} → Option ℕ → Text → List (Signal A) → Option (Outcome A)
read timeout label signals =
    caught (with_timeout label (or_default timeout default_read_timeout_ms) started signals).result

pub record TxFinalized : Type 0 where
  pub tx_hash : Text
  pub ok : Bool
  pub dispatch_error : Text
  pub block_hash : Text
  pub block_number : ℕ
  pub block_index : ℕ

pub record TxSuccess : Type 0 where
  pub tx_hash : Text
  pub block_hash : Text
  pub block_number : ℕ
  pub extrinsic_index : ℕ

abbrev pub success : TxFinalized → TxSuccess
success r = record {
  tx_hash = r.tx_hash;
  block_hash = r.block_hash;
  block_number = r.block_number;
  extrinsic_index = r.block_index;
}

abbrev pub dispatch_failed : Text → TxFinalized → Thrown
dispatch_failed label r = permanent (label ++ (codes ": dispatch failed: " ++ r.dispatch_error))

abbrev pub check_dispatch : Text → TxFinalized → Outcome TxSuccess
check_dispatch label r = if r.ok then returned (success r) else threw (dispatch_failed label r)

unfoldable pub submit_signed :
    Option ℕ → Text → List (Signal TxFinalized) → Option (Outcome TxSuccess)
submit_signed timeout label signals = caught (
    pending_map (check_dispatch label)
      (with_timeout label (or_default timeout default_submit_timeout_ms) started signals).result)

unfoldable pub finalized_height : Option ℕ → List (Signal ℕ) → Option (Outcome ℕ)
unfolding read
finalized_height timeout signals = read timeout (codes "getFinalizedBlock") signals

-- Whatever a read throws is classified: classifying it again changes nothing. A timer that fires
-- first gives a retryable error, and a value that comes first is returned.
pub read-first :
    {A : Type 0} (timeout : Option ℕ) (label : Text) (s : Signal A) (ss : List (Signal A))
    → read timeout label (s ∷ ss)
      ≡ some (reclassify (first_outcome label (or_default timeout default_read_timeout_ms) s))
unfolding read
read-first timeout label s ss =
    rw (with_timeout-first label (or_default timeout default_read_timeout_ms) s ss)

-- What a finalized transaction comes to, by whether its dispatch succeeded.
abbrev pub verdict : Text → Bool → TxFinalized → Outcome TxSuccess
verdict label true r = returned (record {
  tx_hash = r.tx_hash;
  block_hash = r.block_hash;
  block_number = r.block_number;
  extrinsic_index = r.block_index;
})
verdict label false r =
    threw (permanent (label ++ (codes ": dispatch failed: " ++ r.dispatch_error)))

-- What a settled submission is, by its first event.
abbrev pub submission : ℕ → Text → Signal TxFinalized → Outcome TxSuccess
submission ms label (fulfilled r) = verdict label r.ok r
submission ms label (rejected e) = threw (classify e)
submission ms label fired =
    threw (retryable (label ++ (codes " timed out after " ++ (decimal ms ++ codes "ms"))))

-- The first event decides a submission: a finalized transaction gives its hash, block and index if
-- its dispatch succeeded, and a permanent error, whatever the dispatch error says, if it failed; a
-- failure of the operation is thrown classified; the timer gives a retryable error with its delay.
pub submit_signed-first :
    (timeout : Option ℕ) (label : Text) (s : Signal TxFinalized) (ss : List (Signal TxFinalized))
    → submit_signed timeout label (s ∷ ss)
      ≡ some (submission (or_default timeout default_submit_timeout_ms) label s)
unfolding submit_signed classify timeout_error
submit_signed-first timeout label s ss =
    rw (with_timeout-first label (or_default timeout default_submit_timeout_ms) s ss) (by_signal s)
  where
    ms : ℕ
    ms = or_default timeout default_submit_timeout_ms

    by_signal :
        (s : Signal TxFinalized)
        → caught (pending_map (check_dispatch label) (some (first_outcome label ms s)))
          ≡ some (submission ms label s)
    by_signal (fulfilled r) = elim (Bool-cases r.ok) [
      | inl succeeded ↦ rw succeeded refl
      | inr failed ↦ rw failed refl
    ]
    by_signal (rejected e) = refl
    by_signal fired = refl
