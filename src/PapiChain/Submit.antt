-- ===== src/PapiChain/Submit.antt =====
-- `submitUnsigned` of packages/chain/papi-chain/src/index.ts: a promise that an observable and a
-- timer settle. The events that `subscribe` delivers before it returns are told from those after.
-- The client's own failure to subscribe is left out.
use predictor_common.Prelude.Text.{Text, codes}
use predictor_common.Prelude.{
  ℕ, ◌+◌, ◌≡◌, refl, ap, ◌∙◌, Bool, true, false, not, ◌&&◌, Option, none, some, List, [], ◌∷◌, ◌++◌,
  if◌then◌else◌, arith,
}
use predictor_common.ChainErrors.{Thrown, retryable, permanent, Outcome, returned, threw, classify}

-- The events of the transaction that the handler tells apart.
pub data TxEvent : Type 0 where
  best_block : (found is_valid : Bool) → TxEvent
  finalized : (ok : Bool) → (dispatch_error : Text) → TxEvent
  other : TxEvent

pub data Notice : Type 0 where
  next : TxEvent → Notice
  failed : Thrown → Notice
  complete : Notice
  timed_out : Notice

-- The closure's variables and what it did: whether `subscription` is assigned, how often it was
-- ended, whether the timer runs, and the promise.
pub record Submission : Type 0 where
  pub settled : Bool
  pub subscribed : Bool
  pub unsubscribed : ℕ
  pub armed : Bool
  pub result : Option (Outcome (Unit {0}))

abbrev pub submitting : Submission
submitting = record {
  settled = false;
  subscribed = false;
  unsubscribed = 0;
  armed = true;
  result = none;
}

abbrev pub unsubscribe : Submission → Submission
unsubscribe s = record s { unsubscribed = s.unsubscribed + 1 }

abbrev pub end_subscription : Submission → Submission
end_subscription s = if s.subscribed then unsubscribe s else s

unfoldable pub finish : Outcome (Unit {0}) → Submission → Submission
finish o s =
    if s.settled
    then s
    else let ended = end_subscription (record s { settled = true }) in
      record ended { armed = false; result = some o }

module _ (label : Text) where
  unfoldable pub on_event : TxEvent → Submission → Submission
  unfolding finish
  on_event (best_block found is_valid) s =
      if not found && not is_valid
      then finish (threw (permanent (label ++ codes ": invalidated in best block"))) s
      else s
  on_event (finalized ok dispatch_error) s =
      if ok
      then finish (returned tt) s
      else finish
          (threw
            (permanent (label ++ (codes ": finalized but dispatch failed: " ++ dispatch_error))))
          s
  on_event other s = s

  unfoldable pub deliver : Submission → Notice → Submission
  unfolding on_event
  deliver s (next event) = on_event event s
  deliver s (failed e) = finish (threw (classify e)) s
  deliver s complete = finish (threw (permanent (label ++ codes ": ended before finalization"))) s
  deliver s timed_out = finish (threw (retryable (label ++ codes ": submit timed out"))) s

  unfoldable pub deliver_all : Submission → List Notice → Submission
  unfolding deliver
  deliver_all s [] = s
  deliver_all s (n ∷ ns) = deliver_all (deliver s n) ns

  -- `subscribe` returns, and a submission that is settled by then is ended here.
  abbrev pub assign : Submission → Submission
  assign s =
      if s.settled
      then unsubscribe (record s { subscribed = true })
      else record s { subscribed = true }

  unfoldable pub submit_unsigned : List Notice → List Notice → Submission
  unfolding deliver_all
  submit_unsigned during later = deliver_all (assign (deliver_all submitting during)) later

  -- What an event decides, if it decides.
  abbrev pub verdict : Notice → Option (Outcome (Unit {0}))
  verdict (next (best_block false false)) =
      some (threw (permanent (label ++ codes ": invalidated in best block")))
  verdict (next (best_block false true)) = none
  verdict (next (best_block true is_valid)) = none
  verdict (next (finalized true e)) = some (returned tt)
  verdict (next (finalized false e)) =
      some (threw (permanent (label ++ (codes ": finalized but dispatch failed: " ++ e))))
  verdict (next other) = none
  verdict (failed e) = some (threw (classify e))
  verdict complete = some (threw (permanent (label ++ codes ": ended before finalization")))
  verdict timed_out = some (threw (retryable (label ++ codes ": submit timed out")))

  abbrev pub or_else :
      Option (Outcome (Unit {0})) → Option (Outcome (Unit {0})) → Option (Outcome (Unit {0}))
  or_else none o = o
  or_else (some v) o = some v

  abbrev pub first_verdict : List Notice → Option (Outcome (Unit {0}))
  first_verdict [] = none
  first_verdict (n ∷ ns) = or_else (verdict n) (first_verdict ns)

  -- What a submission is once `subscribe` has returned, and before that.
  abbrev pub during_state : Option (Outcome (Unit {0})) → Submission
  during_state none = submitting
  during_state (some o) = record {
    settled = true;
    subscribed = false;
    unsubscribed = 0;
    armed = false;
    result = some o;
  }

  abbrev pub later_state : Option (Outcome (Unit {0})) → Submission
  later_state none = record submitting { subscribed = true }
  later_state (some o) = record {
    settled = true;
    subscribed = true;
    unsubscribed = 1;
    armed = false;
    result = some o;
  }

  deliver-during :
      (o : Option (Outcome (Unit {0}))) (n : Notice)
      → deliver (during_state o) n ≡ during_state (or_else o (verdict n))
  unfolding deliver
  deliver-during none n = ground arith
  deliver-during (some o) n = ground arith

  deliver-later :
      (o : Option (Outcome (Unit {0}))) (n : Notice)
      → deliver (later_state o) n ≡ later_state (or_else o (verdict n))
  unfolding deliver
  deliver-later none n = ground arith
  deliver-later (some o) n = ground arith

  or_else_assoc :
      (a b c : Option (Outcome (Unit {0}))) → or_else (or_else a b) c ≡ or_else a (or_else b c)
  or_else_assoc none b c = refl
  or_else_assoc (some v) b c = refl

  or_else-none : (o : Option (Outcome (Unit {0}))) → or_else o none ≡ o
  or_else-none none = refl
  or_else-none (some v) = refl

  deliver_all-during :
      (o : Option (Outcome (Unit {0}))) (ns : List Notice)
      → deliver_all (during_state o) ns ≡ during_state (or_else o (first_verdict ns))
  unfolding deliver_all
  deliver_all-during o [] = rw (or_else-none o)
  deliver_all-during o (n ∷ ns) = rw (
    deliver-during o n,
    deliver_all-during (or_else o (verdict n)) ns,
    or_else_assoc o (verdict n) (first_verdict ns),
  )

  deliver_all-later :
      (o : Option (Outcome (Unit {0}))) (ns : List Notice)
      → deliver_all (later_state o) ns ≡ later_state (or_else o (first_verdict ns))
  unfolding deliver_all
  deliver_all-later o [] = rw (or_else-none o)
  deliver_all-later o (n ∷ ns) = rw (
    deliver-later o n,
    deliver_all-later (or_else o (verdict n)) ns,
    or_else_assoc o (verdict n) (first_verdict ns),
  )

  assign-during : (o : Option (Outcome (Unit {0}))) → assign (during_state o) ≡ later_state o
  assign-during none = refl
  assign-during (some o) = refl

  first_verdict-append :
      (ns ms : List Notice)
      → or_else (first_verdict ns) (first_verdict ms) ≡ first_verdict (ns ++ ms)
  first_verdict-append [] ms = refl
  first_verdict-append (n ∷ ns) ms =
      or_else_assoc (verdict n) (first_verdict ns) (first_verdict ms)
      ∙ ap (or_else (verdict n)) (first_verdict-append ns ms)

-- Whatever is delivered, before `subscribe` returns or after, the promise is settled by the first
-- event that decides; the timer is then off and the subscription was ended exactly once. While no
-- event decides, the promise is pending, the timer runs and the subscription stands.
pub submit_unsigned-first :
    (label : Text) (during later : List Notice)
    → submit_unsigned label during later ≡ later_state label (first_verdict label (during ++ later))
unfolding submit_unsigned
submit_unsigned-first label during later = rw (
  deliver_all-during label none during,
  assign-during label (first_verdict label during),
  deliver_all-later label (first_verdict label during) later,
  first_verdict-append label during later,
)
