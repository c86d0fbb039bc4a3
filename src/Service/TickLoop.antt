-- ===== src/Service/TickLoop.antt =====
-- `createTickLoop` of packages/service/service-runtime/src/scheduler.ts: the closure's variables, and
-- the calls, timer firings and settled ticks that reach it. Ticks are numbered from 0.
use predictor_common.Prelude.{
  ℕ, ◌+◌, ◌<◌, ◌≤◌, ◌≡◌, refl, ◌⊎◌, inl, inr, Option-cases, ◌++◌, Bool, true, false, ◌||◌, Option,
  none, some, List, [], ◌∷◌, if◌then◌else◌, arith,
}

-- `interval` is whether `timer` is set, and `in_flight` the number of the tick that the variable
-- holds. `started` and `settled` count the ticks, `errors` the calls of `onError`.
pub record TickLoop : Type 0 where
  pub interval : Bool
  pub running : Bool
  pub stopped : Bool
  pub in_flight : Option ℕ
  pub started : ℕ
  pub settled : ℕ
  pub errors : ℕ

abbrev pub new_loop : TickLoop
new_loop = record {
  interval = false;
  running = false;
  stopped = false;
  in_flight = none;
  started = 0;
  settled = 0;
  errors = 0;
}

unfoldable pub kick : TickLoop → TickLoop
kick l =
    if l.stopped || l.running
    then l
    else record l { running = true; in_flight = some l.started; started = l.started + 1 }

unfoldable pub start : TickLoop → TickLoop
unfolding kick
start l = if l.interval then l else record (kick l) { interval = true }

-- `stop` up to its `await`.
unfoldable pub stop : TickLoop → TickLoop
stop l = record l { stopped = true; interval = false }

-- `runTick` settles: `onError` has the rejection, and `finally` clears `running`.
unfoldable pub tick_settles : (rejected : Bool) → TickLoop → TickLoop
tick_settles rejected l = record l {
  running = false;
  settled = l.settled + 1;
  errors = if rejected then l.errors + 1 else l.errors;
}

-- The timer fires only while it is set, and a tick settles only while one runs.
pub data Event : Type 0 where
  starts stops fires : Event
  settles : (rejected : Bool) → Event

unfoldable pub observe : TickLoop → Event → TickLoop
unfolding start stop kick tick_settles
observe l starts = start l
observe l stops = stop l
observe l fires = if l.interval then kick l else l
observe l (settles rejected) = if l.running then tick_settles rejected l else l

unfoldable pub observe_all : TickLoop → List Event → TickLoop
unfolding observe
observe_all l [] = l
observe_all l (e ∷ es) = observe_all (observe l e) es

-- The promise that `stop` returned is fulfilled: the tick that it awaits, if any, has settled.
abbrev pub IsDrained : TickLoop → Type 0
IsDrained l = (l.in_flight ≡ none) ⊎ ((n : ℕ) × (l.in_flight ≡ some n) × (n < l.settled))

-- Ticks that run now.
abbrev pub running_count : TickLoop → ℕ
running_count l = if l.running then 1 else 0

abbrev pub LastTick : TickLoop → Option ℕ → Type 0
LastTick l none = l.started ≡ 0
LastTick l (some n) = n + 1 ≡ l.started

pub record IsSound (l : TickLoop) : Type 0 where
  pub single : l.started ≡ l.settled + running_count l
  pub last : LastTick l l.in_flight
  pub few_errors : l.errors ≤ l.settled

observe-IsSound : (l : TickLoop) (e : Event) → IsSound l → IsSound (observe l e)
unfolding observe
observe-IsSound l starts s = ground arith
observe-IsSound l stops s = ground arith
observe-IsSound l fires s = ground arith
observe-IsSound l (settles rejected) s = ground arith

observe_all-IsSound : (l : TickLoop) (es : List Event) → IsSound l → IsSound (observe_all l es)
unfolding observe_all
observe_all-IsSound l [] s = s
observe_all-IsSound l (e ∷ es) s = observe_all-IsSound (observe l e) es (observe-IsSound l e s)

-- Whatever the order of calls, firings and settled ticks: at most one tick runs, `inFlight` holds the
-- tick that was started last, and `onError` was called at most once for each tick that settled.
pub tick_loop-IsSound : (es : List Event) → IsSound (observe_all new_loop es)
tick_loop-IsSound es =
    observe_all-IsSound new_loop es
      (record { single = refl; last = refl; few_errors = omega arith })

-- A loop that will run no tick again.
abbrev pub IsOver : ℕ → TickLoop → Type 0
IsOver n l = (l.stopped ≡ true) × (l.running ≡ false) × (l.started ≡ n)

observe-IsOver : (n : ℕ) (l : TickLoop) (e : Event) → IsOver n l → IsOver n (observe l e)
unfolding observe
observe-IsOver n l starts h = ground arith
observe-IsOver n l stops h = ground arith
observe-IsOver n l fires h = ground arith
observe-IsOver n l (settles rejected) h = ground arith

observe_all-IsOver :
    (n : ℕ) (l : TickLoop) (es : List Event) → IsOver n l → IsOver n (observe_all l es)
unfolding observe_all
observe_all-IsOver n l [] h = h
observe_all-IsOver n l (e ∷ es) h = observe_all-IsOver n (observe l e) es (observe-IsOver n l e h)

idle_of_IsDrained : (l : TickLoop) → IsSound l → IsDrained l → l.running ≡ false
idle_of_IsDrained l s d = ground arith

-- Once `stop` was called and its promise is fulfilled, no tick runs, and none is started by anything
-- that happens later, another `start` included.
pub stop_drains :
    (es later : List Event)
    → (observe_all new_loop es).stopped ≡ true
    → IsDrained (observe_all new_loop es)
    → IsOver (observe_all new_loop es).started (observe_all (observe_all new_loop es) later)
stop_drains es later h d =
    let l = observe_all new_loop es in
    observe_all-IsOver l.started l later (h, idle_of_IsDrained l (tick_loop-IsSound es) d, refl)

observe-stopped : (l : TickLoop) (e : Event) → l.stopped ≡ true → (observe l e).stopped ≡ true
unfolding observe
observe-stopped l starts h = ground arith
observe-stopped l stops h = ground arith
observe-stopped l fires h = ground arith
observe-stopped l (settles rejected) h = ground arith

IsDrained-of_idle : (l : TickLoop) → IsSound l → l.running ≡ false → IsDrained l
IsDrained-of_idle l s h = elim (Option-cases l.in_flight) [
  | inl e ↦ inl e
  | inr (n, e) ↦ inr (n, e, ground arith)
]

settles-idle : (l : TickLoop) (rejected : Bool) → (observe l (settles rejected)).running ≡ false
unfolding observe
settles-idle l rejected = ground arith

drains :
    (l : TickLoop) (before after : List Event) (rejected : Bool)
    → IsSound l
    → l.stopped ≡ true
    → IsDrained (observe_all l (before ++ (settles rejected ∷ after)))
unfolding observe_all
drains l [] after rejected s h =
    let settled = observe l (settles rejected) in
    let over : IsOver settled.started settled =
      (observe-stopped l (settles rejected) h, settles-idle l rejected, refl) in
    IsDrained-of_idle (observe_all settled after)
      (observe_all-IsSound settled after (observe-IsSound l (settles rejected) s))
      (observe_all-IsOver settled.started settled after over).1
drains l (e ∷ before) after rejected s h =
    drains (observe l e) before after rejected (observe-IsSound l e s) (observe-stopped l e h)

-- Once `stop` was called, its promise is fulfilled as soon as the tick that runs has settled, whether it
-- fails or not, and it stays so: after any calls and firings, with others before and after.
pub stop_fulfilled :
    (es before after : List Event) (rejected : Bool)
    → (observe_all new_loop es).stopped ≡ true
    → IsDrained (observe_all (observe_all new_loop es) (before ++ (settles rejected ∷ after)))
stop_fulfilled es before after rejected h =
    drains (observe_all new_loop es) before after rejected (tick_loop-IsSound es) h
