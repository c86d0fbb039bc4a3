-- ===== src/Service/Shutdown.antt =====
-- `installGracefulShutdown` of packages/service/service-runtime/src/lifecycle.ts: the handler's
-- variables, and the signals, the drain and the timer that reach it. The process is over at the first
-- `process.exit`, and what would happen after it does not.
use predictor_common.Prelude.Text.{Text}
use predictor_common.Prelude.{
  ℕ, ◌≡◌, refl, Bool, true, false, Option, none, some, List, [], ◌∷◌, if◌then◌else◌,
}

-- `drains` keeps the signals that `onShutdown` was called with, newest first.
pub record Process : Type 0 where
  pub shutting_down : Bool
  pub timer : Bool
  pub drains : List Text
  pub exited : Option ℕ

abbrev pub running : Process
running = record { shutting_down = false; timer = false; drains = []; exited = none }

-- `handle(signal)`, with or without `timeoutMs`.
unfoldable pub handle : (timeout_ms : Option ℕ) → Text → Process → Process
handle timeout_ms signal p = if p.shutting_down then p else record p {
  shutting_down = true;
  timer = elim timeout_ms [ none ↦ false | some ms ↦ true ];
  drains = signal ∷ p.drains;
}

-- The two branches of `race.then`.
unfoldable pub exit_with : ℕ → Process → Process
exit_with code p = record p { timer = false; exited = some code }

pub data Event : Type 0 where
  signalled : Text → Event
  drained : Event
  drain_failed : Event
  timed_out : Event

-- The drain settles only after it was started, and the timer fires only while it is armed.
unfoldable pub observe : Option ℕ → Process → Event → Process
unfolding handle exit_with
observe timeout_ms p e = elim p.exited [
  | some code ↦ p
  | none ↦ elim e [
    | signalled signal ↦ handle timeout_ms signal p
    | drained ↦ if p.shutting_down then exit_with 0 p else p
    | drain_failed ↦ if p.shutting_down then exit_with 1 p else p
    | timed_out ↦ if p.timer then exit_with 1 p else p
  ]
]

unfoldable pub observe_all : Option ℕ → Process → List Event → Process
unfolding observe
observe_all timeout_ms p [] = p
observe_all timeout_ms p (e ∷ es) = observe_all timeout_ms (observe timeout_ms p e) es

-- What ends a drain, and with which code.
abbrev pub verdict : Option ℕ → Event → Option ℕ
verdict timeout_ms (signalled signal) = none
verdict timeout_ms drained = some 0
verdict timeout_ms drain_failed = some 1
verdict none timed_out = none
verdict (some ms) timed_out = some 1

abbrev pub first_verdict : Option ℕ → List Event → Option ℕ
first_verdict timeout_ms [] = none
first_verdict timeout_ms (e ∷ es) = elim (verdict timeout_ms e) [
  | some code ↦ some code
  | none ↦ first_verdict timeout_ms es
]

-- The first signal, and what comes after it.
abbrev pub first_signal : List Event → Option (Text × List Event)
first_signal [] = none
first_signal (signalled signal ∷ es) = some (signal, es)
first_signal (drained ∷ es) = first_signal es
first_signal (drain_failed ∷ es) = first_signal es
first_signal (timed_out ∷ es) = first_signal es

abbrev pub has_timer : Option ℕ → Bool
has_timer none = false
has_timer (some ms) = true

-- A process after its first signal, given what ended the drain.
abbrev pub after_signal : Option ℕ → Text → Option ℕ → Process
after_signal timeout_ms signal none = record {
  shutting_down = true;
  timer = has_timer timeout_ms;
  drains = signal ∷ [];
  exited = none;
}
after_signal timeout_ms signal (some code) = record {
  shutting_down = true;
  timer = false;
  drains = signal ∷ [];
  exited = some code;
}

abbrev pub outcome : Option ℕ → Option (Text × List Event) → Process
outcome timeout_ms none = running
outcome timeout_ms (some (signal, es)) =
    after_signal timeout_ms signal (first_verdict timeout_ms es)

module _ (timeout_ms : Option ℕ) (signal : Text) where
  exited_for_good :
      (code : ℕ) (es : List Event)
      → observe_all timeout_ms (after_signal timeout_ms signal (some code)) es
        ≡ after_signal timeout_ms signal (some code)
  unfolding observe_all
  exited_for_good code [] = refl
  exited_for_good code (e ∷ es) = exited_for_good code es

drain_ends :
    (timeout_ms : Option ℕ) (signal : Text) (es : List Event)
    → observe_all timeout_ms (after_signal timeout_ms signal none) es
      ≡ after_signal timeout_ms signal (first_verdict timeout_ms es)
unfolding observe_all
drain_ends timeout_ms signal [] = refl
drain_ends timeout_ms signal (signalled again ∷ es) = drain_ends timeout_ms signal es
drain_ends timeout_ms signal (drained ∷ es) = exited_for_good timeout_ms signal 0 es
drain_ends timeout_ms signal (drain_failed ∷ es) = exited_for_good timeout_ms signal 1 es
drain_ends none signal (timed_out ∷ es) = drain_ends none signal es
drain_ends (some ms) signal (timed_out ∷ es) = exited_for_good (some ms) signal 1 es

handled :
    (timeout_ms : Option ℕ) (signal : Text)
    → handle timeout_ms signal running ≡ after_signal timeout_ms signal none
unfolding handle
handled none signal = refl
handled (some ms) signal = refl

-- The first signal starts the one drain, with that signal; later signals change nothing. The process
-- exits with 0 if the drain succeeds before the timeout, with 1 if it fails or the timeout is first,
-- and not at all while neither has happened or without a signal.
pub shutdown_once :
    (timeout_ms : Option ℕ) (es : List Event)
    → observe_all timeout_ms running es ≡ outcome timeout_ms (first_signal es)
unfolding observe_all
shutdown_once timeout_ms [] = refl
shutdown_once timeout_ms (signalled signal ∷ es) =
    rw (handled timeout_ms signal) (drain_ends timeout_ms signal es)
shutdown_once timeout_ms (drained ∷ es) = shutdown_once timeout_ms es
shutdown_once timeout_ms (drain_failed ∷ es) = shutdown_once timeout_ms es
shutdown_once timeout_ms (timed_out ∷ es) = shutdown_once timeout_ms es
