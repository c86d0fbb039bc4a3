-- ===== src/Service/Health.antt =====
-- `HealthMonitor` and `registerHealthRoutes` of packages/service/service-runtime/src/health.ts and
-- healthRoutes.ts. Each operation is given the reading that `now` returns to it.
use predictor_common.Prelude.{
  ℕ, ◌+◌, ◌<◌, ◌≡◌, refl, ◌↔◌, ◌⊎◌, inl, inr, Bool, true, false, ◌||◌, List, [], ◌∷◌, ◌==◌, ltb,
  if◌then◌else◌, All, arith,
}

pub data HealthStatus : Type 0 where
  starting healthy degraded unhealthy : HealthStatus

pub record HealthMonitor : Type 0 where
  pub status : HealthStatus
  pub last_completed_at : ℕ
  pub last_progress_at : ℕ

abbrev pub new_monitor : HealthMonitor
new_monitor = record { status = starting; last_completed_at = 0; last_progress_at = 0 }

unfoldable pub record_status : HealthStatus → ℕ → HealthMonitor → HealthMonitor
record_status status now m = record {
  status = status;
  last_completed_at = now;
  last_progress_at = now;
}

unfoldable pub mark_progress : ℕ → HealthMonitor → HealthMonitor
mark_progress now m = record m { last_progress_at = now }

pub record Reply : Type 0 where
  pub code : ℕ
  pub answer : Bool

-- The handler of the liveness path. `now() - reference < livenessTimeoutMs` is written without the
-- difference, which may be negative.
unfoldable pub liveness : (registered_at liveness_timeout_ms now : ℕ) → HealthMonitor → Reply
liveness registered_at liveness_timeout_ms now m =
    let reference = if m.last_progress_at == 0 then registered_at else m.last_progress_at in
    let alive = ltb now (reference + liveness_timeout_ms) in
    record { code = if alive then 200 else 503; answer = alive }

abbrev pub is_healthy : HealthStatus → Bool
is_healthy healthy = true
is_healthy _ = false

abbrev pub is_degraded : HealthStatus → Bool
is_degraded degraded = true
is_degraded _ = false

-- The handler of the readiness path.
unfoldable pub readiness : HealthMonitor → Reply
readiness m =
    let ready = is_healthy m.status || is_degraded m.status in
    record { code = if ready then 200 else 503; answer = ready }

-- What a worker reports, with the clock at that time.
pub data Report : Type 0 where
  recorded : HealthStatus → ℕ → Report
  progressed : ℕ → Report

abbrev pub time : Report → ℕ
time (recorded status now) = now
time (progressed now) = now

unfoldable pub apply : HealthMonitor → Report → HealthMonitor
unfolding record_status mark_progress
apply m (recorded status now) = record_status status now m
apply m (progressed now) = mark_progress now m

unfoldable pub apply_all : HealthMonitor → List Report → HealthMonitor
unfolding apply
apply_all m [] = m
apply_all m (r ∷ rs) = apply_all (apply m r) rs

-- The last report of any kind, and the status of the last that records one.
abbrev pub last_time : ℕ → List Report → ℕ
last_time t [] = t
last_time t (r ∷ rs) = last_time (time r) rs

abbrev pub last_status : HealthStatus → List Report → HealthStatus
last_status s [] = s
last_status s (recorded status now ∷ rs) = last_status status rs
last_status s (progressed now ∷ rs) = last_status s rs

abbrev pub Positive : Report → Type 0
Positive r = 0 < time r

apply_all-progress :
    (m : HealthMonitor) (rs : List Report)
    → (apply_all m rs).last_progress_at ≡ last_time m.last_progress_at rs
unfolding apply_all
apply_all-progress m [] = refl
apply_all-progress m (recorded status now ∷ rs) = apply_all-progress _ rs
apply_all-progress m (progressed now ∷ rs) = apply_all-progress _ rs

apply_all-status :
    (m : HealthMonitor) (rs : List Report) → (apply_all m rs).status ≡ last_status m.status rs
unfolding apply_all
apply_all-status m [] = refl
apply_all-status m (recorded status now ∷ rs) = apply_all-status _ rs
apply_all-status m (progressed now ∷ rs) = apply_all-status _ rs

last_time-pos : (t : ℕ) (rs : List Report) → 0 < t → All Positive rs → 0 < last_time t rs
last_time-pos t [] h all = h
last_time-pos t (r ∷ rs) h (p, all) = last_time-pos (time r) rs p all

abbrev pub code_of : Bool → ℕ
code_of true = 200
code_of false = 503

code_if : (b : Bool) → (if b then 200 else 503) ≡ code_of b
code_if true = refl
code_if false = refl

-- Liveness answers 200 while the last report of any kind, a record or a mere sign of progress, or the
-- registration if there was none, is less than the window old; otherwise 503. What was recorded does
-- not matter.
pub liveness-apply_all :
    (registered_at window now : ℕ) (rs : List Report)
    → 0 < registered_at
    → All Positive rs
    → (liveness registered_at window now (apply_all new_monitor rs)).code
      ≡ code_of (ltb now (last_time registered_at rs + window))
unfolding liveness
liveness-apply_all registered_at window now [] h all =
    rw (apply_all-progress new_monitor []) (code_if (ltb now (registered_at + window)))
liveness-apply_all registered_at window now (r ∷ rs) h (p, all) =
    let seen : ((apply_all new_monitor (r ∷ rs)).last_progress_at == 0) ≡ false =
      ground (arith, apply_all-progress new_monitor (r ∷ rs), last_time-pos (time r) rs p all) in
    rw (seen, apply_all-progress new_monitor (r ∷ rs))
      (code_if (ltb now (last_time (time r) rs + window)))

abbrev pub IsReady : HealthStatus → Type 0
IsReady starting = ⊥
IsReady healthy = Unit
IsReady degraded = Unit
IsReady unhealthy = ⊥

status_code_iff :
    (s : HealthStatus)
    → (◌≡◌ {A = ℕ} (if is_healthy s || is_degraded s then 200 else 503) 200) ↔ IsReady s
status_code_iff starting = ((λ h. omega arith), λ h. absurd h)
status_code_iff healthy = ((λ h. tt), λ h. refl)
status_code_iff degraded = ((λ h. tt), λ h. refl)
status_code_iff unhealthy = ((λ h. omega arith), λ h. absurd h)

status_code_cases :
    (b : Bool)
    → (◌≡◌ {A = ℕ} (if b then 200 else 503) 200) ⊎ (◌≡◌ {A = ℕ} (if b then 200 else 503) 503)
status_code_cases true = inl refl
status_code_cases false = inr refl

-- Readiness answers 200 exactly when the status recorded last is healthy or degraded; before the first
-- record, and after starting or unhealthy, it answers 503. Signs of progress do not matter.
pub readiness-apply_all :
    (rs : List Report)
    → (((readiness (apply_all new_monitor rs)).code ≡ 200) ↔ IsReady (last_status starting rs))
      × (((readiness (apply_all new_monitor rs)).code ≡ 200)
          ⊎ ((readiness (apply_all new_monitor rs)).code ≡ 503))
unfolding readiness
readiness-apply_all rs =
    let status = (apply_all new_monitor rs).status in
    (
      rw (← apply_all-status new_monitor rs) (status_code_iff status),
      status_code_cases (is_healthy status || is_degraded status),
    )
