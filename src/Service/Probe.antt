-- ===== src/Service/Probe.antt =====
-- `createCachedProbe` of packages/service/service-runtime/src/healthRoutes.ts: the closure's
-- variables, the probes that come in and the check that they wait for.
use mathlib.Core.Path.{subst}
use predictor_common.Prelude.{
  ℕ, ◌+◌, ◌<◌, ◌≤◌, ◌≡◌, refl, ◌⊎◌, inl, inr, Bool, true, false, not, ◌&&◌, Option, none, some,
  List, [], ◌∷◌, ◌==◌, leb, if◌then◌else◌, Bool-cases, arith,
}

-- `started` counts the calls of `check`; `waiting` the probes that its answer will serve.
pub record Probe : Type 0 where
  pub checked_at : ℕ
  pub healthy : Bool
  pub in_flight : Bool
  pub started : ℕ
  pub settled : ℕ

abbrev pub new_probe : Probe
new_probe = record { checked_at = 0; healthy = false; in_flight = false; started = 0; settled = 0 }

-- A probe is answered from the cache, or by the check in flight.
pub data Answer : Type 0 where
  cached : Bool → Answer
  awaits : Answer

-- `at - checkedAt <= ttlMs`, without the difference, which may be negative.
abbrev pub is_fresh : (ttl_ms now : ℕ) → Probe → Bool
is_fresh ttl_ms now p = leb now (p.checked_at + ttl_ms) && not (p.checked_at == 0)

unfoldable pub probe : (ttl_ms now : ℕ) → Probe → Probe × Answer
probe ttl_ms now p =
    if is_fresh ttl_ms now p
    then (p, cached p.healthy)
    else (if p.in_flight
        then (p, awaits)
        else (record p { in_flight = true; started = p.started + 1 }, awaits))

-- `check` settles, a rejection as `false`.
unfoldable pub settle : (outcome : Option Bool) → (now : ℕ) → Probe → Probe
settle none now p = record p {
  healthy = false;
  checked_at = now;
  in_flight = false;
  settled = p.settled + 1;
}
settle (some b) now p = record p {
  healthy = b;
  checked_at = now;
  in_flight = false;
  settled = p.settled + 1;
}

-- What happens to the closure: a probe comes in, or the check in flight settles.
pub data Event : Type 0 where
  probed : (now : ℕ) → Event
  checked : (outcome : Option Bool) → (now : ℕ) → Event

-- The closure with its history, newest first: when checks were started, and what they settled with.
pub record Log : Type 0 where
  pub state : Probe
  pub starts : List ℕ
  pub results : List (ℕ × Bool)

abbrev pub new_log : Log
new_log = record { state = new_probe; starts = []; results = [] }

abbrev pub as_bool : Option Bool → Bool
as_bool none = false
as_bool (some b) = b

-- A check was started if the count of them went up.
abbrev pub note_start : ℕ → Probe → Log → Log
note_start now p l = record {
  state = p;
  starts = if p.started == l.state.started then l.starts else now ∷ l.starts;
  results = l.results;
}

unfoldable pub observe : ℕ → Log → Event → Log
unfolding probe settle
observe ttl_ms l (probed now) = note_start now (probe ttl_ms now l.state).0 l
observe ttl_ms l (checked outcome now) =
    if l.state.in_flight
    then record {
      state = settle outcome now l.state;
      starts = l.starts;
      results = (now, as_bool outcome) ∷ l.results;
    }
    else l

unfoldable pub observe_all : ℕ → Log → List Event → Log
unfolding observe
observe_all ttl_ms l [] = l
observe_all ttl_ms l (e ∷ es) = observe_all ttl_ms (observe ttl_ms l e) es

-- The last check settled longer than the window before.
abbrev pub After : ℕ → ℕ → List (ℕ × Bool) → Type 0
After ttl_ms start [] = Unit
After ttl_ms start ((t, b) ∷ rs) = (t ≡ 0) ⊎ (t + ttl_ms < start)

-- Each start has its result, and came after the window of the result before it.
abbrev pub Gaps : ℕ → List ℕ → List (ℕ × Bool) → Type 0
Gaps ttl_ms [] [] = Unit
Gaps ttl_ms [] (r ∷ rs) = ⊥
Gaps ttl_ms (s ∷ ss) [] = ⊥
Gaps ttl_ms (s ∷ ss) (r ∷ rs) = After ttl_ms s rs × Gaps ttl_ms ss rs

-- So too with one more start, whose check is in flight.
abbrev pub OpenGaps : ℕ → Bool → List ℕ → List (ℕ × Bool) → Type 0
OpenGaps ttl_ms false ss rs = Gaps ttl_ms ss rs
OpenGaps ttl_ms true [] rs = ⊥
OpenGaps ttl_ms true (s ∷ ss) rs = After ttl_ms s rs × Gaps ttl_ms ss rs

-- The cache holds the result that came last.
abbrev pub Caches : Probe → List (ℕ × Bool) → Type 0
Caches p [] = p.checked_at ≡ 0
Caches p ((t, b) ∷ rs) = (p.checked_at ≡ t) × (p.healthy ≡ b)

abbrev pub IsSound : ℕ → Log → Type 0
IsSound ttl_ms l = Caches l.state l.results × OpenGaps ttl_ms l.state.in_flight l.starts l.results

stale-After :
    (ttl_ms now : ℕ) (p : Probe) (rs : List (ℕ × Bool))
    → is_fresh ttl_ms now p ≡ false
    → Caches p rs
    → After ttl_ms now rs
stale-After ttl_ms now p [] h c = tt
stale-After ttl_ms now p ((t, b) ∷ rs) h (e, _) = ground arith

observe_kept :
    (ttl_ms now : ℕ) (l : Log)
    → (is_fresh ttl_ms now l.state ≡ true) ⊎ (l.state.in_flight ≡ true)
    → observe ttl_ms l (probed now) ≡ l
unfolding observe
observe_kept ttl_ms now l h = ground arith

observe_started :
    (ttl_ms now : ℕ) (l : Log)
    → is_fresh ttl_ms now l.state ≡ false
    → l.state.in_flight ≡ false
    → observe ttl_ms l (probed now) ≡ record {
      state = record (l.state) { in_flight = true; started = l.state.started + 1 };
      starts = now ∷ l.starts;
      results = l.results;
    }
unfolding observe
observe_started ttl_ms now l h k = ground arith

Caches-started :
    (p : Probe) (n : ℕ) (rs : List (ℕ × Bool))
    → Caches p rs
    → Caches (record p { in_flight = true; started = n }) rs
Caches-started p n [] c = c
Caches-started p n ((t, b) ∷ rs) c = c

probed-IsSound :
    (ttl_ms now : ℕ) (l : Log) → IsSound ttl_ms l → IsSound ttl_ms (observe ttl_ms l (probed now))
probed-IsSound ttl_ms now l (c, g) = elim (Bool-cases (is_fresh ttl_ms now l.state)) [
  | inl fresh ↦ rw (observe_kept ttl_ms now l (inl fresh)) (c, g)
  | inr stale ↦ elim (Bool-cases l.state.in_flight) [
    | inl flying ↦ rw (observe_kept ttl_ms now l (inr flying)) (c, g)
    | inr idle ↦ rw (observe_started ttl_ms now l stale idle) (
      Caches-started l.state (l.state.started + 1) l.results c,
      (
        stale-After ttl_ms now l.state l.results stale c,
        subst (λ b. OpenGaps ttl_ms b l.starts l.results) idle g,
      ),
    )
  ]
]

OpenGaps-closed :
    (ttl_ms : ℕ) (ss : List ℕ) (rs : List (ℕ × Bool)) (r : ℕ × Bool)
    → OpenGaps ttl_ms true ss rs
    → Gaps ttl_ms ss (r ∷ rs)
OpenGaps-closed ttl_ms [] rs r g = absurd g
OpenGaps-closed ttl_ms (s ∷ ss) rs r g = g

observe_checked :
    (ttl_ms : ℕ) (outcome : Option Bool) (now : ℕ) (l : Log)
    → l.state.in_flight ≡ true
    → observe ttl_ms l (checked outcome now) ≡ record {
      state = settle outcome now l.state;
      starts = l.starts;
      results = (now, as_bool outcome) ∷ l.results;
    }
unfolding observe
observe_checked ttl_ms outcome now l h = ground arith

observe_unchecked :
    (ttl_ms : ℕ) (outcome : Option Bool) (now : ℕ) (l : Log)
    → l.state.in_flight ≡ false
    → observe ttl_ms l (checked outcome now) ≡ l
unfolding observe
observe_unchecked ttl_ms outcome now l h = ground arith

Caches-settle :
    (o : Option Bool) (now : ℕ) (p : Probe) (rs : List (ℕ × Bool))
    → Caches (settle o now p) ((now, as_bool o) ∷ rs)
unfolding settle
Caches-settle none now p rs = (refl, refl)
Caches-settle (some b) now p rs = (refl, refl)

settle-in_flight : (o : Option Bool) (now : ℕ) (p : Probe) → (settle o now p).in_flight ≡ false
unfolding settle
settle-in_flight none now p = refl
settle-in_flight (some b) now p = refl

checked-IsSound :
    (ttl_ms : ℕ) (outcome : Option Bool) (now : ℕ) (l : Log)
    → IsSound ttl_ms l
    → IsSound ttl_ms (observe ttl_ms l (checked outcome now))
checked-IsSound ttl_ms outcome now l (c, g) = elim (Bool-cases l.state.in_flight) [
  | inr idle ↦ rw (observe_unchecked ttl_ms outcome now l idle) (c, g)
  | inl flying ↦ rw (observe_checked ttl_ms outcome now l flying) (
    Caches-settle outcome now l.state l.results,
    rw (settle-in_flight outcome now l.state) (
        OpenGaps-closed ttl_ms l.starts l.results (now, as_bool outcome)
          (subst (λ b. OpenGaps ttl_ms b l.starts l.results) flying g)),
  )
]

observe_all-IsSound :
    (ttl_ms : ℕ) (l : Log) (es : List Event)
    → IsSound ttl_ms l
    → IsSound ttl_ms (observe_all ttl_ms l es)
unfolding observe_all
observe_all-IsSound ttl_ms l [] s = s
observe_all-IsSound ttl_ms l (probed now ∷ es) s =
    observe_all-IsSound ttl_ms (observe ttl_ms l (probed now)) es (probed-IsSound ttl_ms now l s)
observe_all-IsSound ttl_ms l (checked o now ∷ es) s =
    observe_all-IsSound ttl_ms (observe ttl_ms l (checked o now)) es
      (checked-IsSound ttl_ms o now l s)

-- After any probes and any answers of the check: the checks that were started are those that settled
-- and at most one in flight, and each was started later than the window after the one before settled,
-- unless that was at time zero. The cache holds the result of the check that settled last.
pub probe-IsSound : (ttl_ms : ℕ) (es : List Event) → IsSound ttl_ms (observe_all ttl_ms new_log es)
probe-IsSound ttl_ms es = observe_all-IsSound ttl_ms new_log es (refl, tt)

-- A result that a probe may be given without a check.
abbrev pub IsRecent : ℕ → ℕ → Bool → List (ℕ × Bool) → Type 0
IsRecent ttl_ms now b [] = ⊥
IsRecent ttl_ms now b ((t, c) ∷ rs) = (b ≡ c) × (now ≤ t + ttl_ms)

probe-IsRecent :
    (ttl_ms now : ℕ) (b : Bool) (p : Probe) (rs : List (ℕ × Bool))
    → Caches p rs
    → (probe ttl_ms now p).1 ≡ cached b
    → IsRecent ttl_ms now b rs
unfolding probe
probe-IsRecent ttl_ms now b p [] c h = ground arith
probe-IsRecent ttl_ms now b p ((t, d) ∷ rs) (e, e') h = (ground arith, ground arith)

-- A probe that is answered from the cache gets the result of the check that settled last, at most the
-- window ago; a check that was rejected counts as false.
pub probe-cached :
    (ttl_ms now : ℕ) (b : Bool) (es : List Event)
    → (probe ttl_ms now (observe_all ttl_ms new_log es).state).1 ≡ cached b
    → IsRecent ttl_ms now b (observe_all ttl_ms new_log es).results
probe-cached ttl_ms now b es h =
    let l = observe_all ttl_ms new_log es in
    probe-IsRecent ttl_ms now b l.state l.results (probe-IsSound ttl_ms es).0 h
