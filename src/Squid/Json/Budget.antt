-- ===== src/Squid/Json/Budget.antt =====
-- `truncateJsonPayload` of packages/indexer/squid-common/src/json.ts against the order of the values.
use predictor_common.Prelude.{
  ℕ, ◌+◌, ◌≤◌, ◌<◌, ◌≡◌, refl, ap, ◌⊎◌, inl, inr, Bool, true, false, ltb, ltb→lt, ltb→le, Option,
  none, some, List, [], ◌∷◌, ◌++◌, All, arith, if◌then◌else◌,
}
use predictor_common.Squid.Json.{
  Json, compound, Members, TruncatedJson, ok, too_large, non_serializable, Tally, and_then, verdict,
  truncate_json_payload,
}
use predictor_common.Squid.Json.Order.{Entry, entries, total, step, scan, scan-over, stringify-scan}

-- Every value is within the budget with those before it, and can be written.
abbrev pub Fits : ℕ → ℕ → List Entry → Type 0
Fits byte_budget n list = (n + total list ≤ byte_budget) × All (λ entry. entry.1 ≡ false) list

-- A value exceeds the budget, and all before it can be written.
abbrev pub Exceeds : ℕ → ℕ → List Entry → Type 0
Exceeds byte_budget n list =
    (before : List Entry) × (entry : Entry) × (after : List Entry) × (list
      ≡ before ++ (entry ∷ after))
    × All (λ e. e.1 ≡ false) before
    × (n + total before ≤ byte_budget)
    × (byte_budget < n + total before + entry.0)

-- A value cannot be written, all before it can, and with it they are within the budget.
abbrev pub Breaks : ℕ → ℕ → List Entry → Type 0
Breaks byte_budget n list =
    (before : List Entry) × (entry : Entry) × (after : List Entry) × (list
      ≡ before ++ (entry ∷ after))
    × All (λ e. e.1 ≡ false) before
    × (entry.1 ≡ true)
    × (n + total before + entry.0 ≤ byte_budget)

data Classified (byte_budget n : ℕ) (list : List Entry) : Option Tally → Type 0 where
  fits :
      (m : ℕ)
      → Fits byte_budget n list
      → Classified byte_budget n list (some (record { accumulated = m; over_limit = false }))
  exceeds :
      (m : ℕ)
      → Exceeds byte_budget n list
      → Classified byte_budget n list (some (record { accumulated = m; over_limit = true }))
  fails : Breaks byte_budget n list → Classified byte_budget n list none

Classified-cons :
    (byte_budget n size : ℕ) (list : List Entry) (o : Option Tally)
    → n + size ≤ byte_budget
    → Classified byte_budget (n + size) list o
    → Classified byte_budget n ((size, false) ∷ list) o
Classified-cons byte_budget n size list _ h (fits m (within, all)) =
    fits m (omega (arith, within), (refl, all))
Classified-cons byte_budget n size list _ h
      (exceeds m (before, entry, after, e, all, within, over)) =
    exceeds m (
      (size, false) ∷ before,
      entry,
      after,
      ap (λ l. (size, false) ∷ l) e,
      (refl, all),
      omega (arith, within),
      omega (arith, over),
    )
Classified-cons byte_budget n size list _ h (fails (before, entry, after, e, all, breaks, within)) =
    fails (
      (size, false) ∷ before,
      entry,
      after,
      ap (λ l. (size, false) ∷ l) e,
      (refl, all),
      breaks,
      omega (arith, within),
    )

-- The first value, by whether it exceeds the budget.
step-Classified :
    (byte_budget n size : ℕ) (breaks : Bool) (list : List Entry) (over : Bool)
    → ltb byte_budget (n + size) ≡ over
    → n ≤ byte_budget
    → ((n + size ≤ byte_budget)
        → Classified byte_budget
            (n + size)
            list
            (scan byte_budget list (record { accumulated = n + size; over_limit = false })))
    → Classified byte_budget n ((size, breaks) ∷ list) (
        and_then byte_budget
          (if over
            then some (record { accumulated = n + size; over_limit = over })
            else (if breaks
                then none
                else some (record { accumulated = n + size; over_limit = over })))
          (λ t. scan byte_budget list t))
step-Classified byte_budget n size breaks list true e h rest =
    let over : byte_budget < n + size = ltb→lt byte_budget (n + size) e in
    rw (scan-over byte_budget list (n + size)) (
      exceeds (n + size)
        ([], (size, breaks), list, refl, tt, omega (arith, h), omega (arith, over)))
step-Classified byte_budget n size true list false e h rest =
    let within : n + size ≤ byte_budget = ltb→le byte_budget (n + size) e in
    fails ([], (size, true), list, refl, tt, refl, omega (arith, within))
step-Classified byte_budget n size false list false e h rest =
    let within : n + size ≤ byte_budget = ltb→le byte_budget (n + size) e in
    Classified-cons byte_budget n size list _ within (rest within)

-- A verdict with what it stands for.
abbrev pub Verdict : Json → ℕ → List Entry → TruncatedJson → Type 0
Verdict v byte_budget list result =
    ((result ≡ ok v) × Fits byte_budget 0 list)
    ⊎ (((result ≡ too_large byte_budget) × Exceeds byte_budget 0 list)
        ⊎ ((result ≡ non_serializable) × Breaks byte_budget 0 list))

scan-Classified :
    (byte_budget n : ℕ) (list : List Entry)
    → n ≤ byte_budget
    → Classified byte_budget n list
        (scan byte_budget list (record { accumulated = n; over_limit = false }))
unfolding scan step
scan-Classified byte_budget n [] h = fits n (omega (arith, h), tt)
scan-Classified byte_budget n ((size, breaks) ∷ list) h =
    step-Classified byte_budget n size breaks list (ltb byte_budget (n + size)) refl h
      (λ within. scan-Classified byte_budget (n + size) list within)

truncate-Classified :
    (v : Json) (byte_budget : ℕ) (list : List Entry) (o : Option Tally)
    → Classified byte_budget 0 list o
    → Verdict v byte_budget list (verdict v byte_budget o)
truncate-Classified v byte_budget list _ (fits m h) = inl (refl, h)
truncate-Classified v byte_budget list _ (exceeds m h) = inr (inl (refl, h))
truncate-Classified v byte_budget list _ (fails h) = inr (inr (refl, h))

-- For every object or array and every budget: the payload is returned if its values, each counted by the length of a
-- string and by 10 otherwise, are within the budget together and all can be written; it is too large
-- if one exceeds the budget with those before it, which can all be written; and it is not serializable if one
-- cannot be written, but those before it can and are with it within the budget.
pub truncate_json_payload_cases :
    (members : Members) (byte_budget : ℕ)
    → Verdict
        (compound members)
        byte_budget
        (entries (compound members))
        (truncate_json_payload (compound members) byte_budget)
unfolding truncate_json_payload
truncate_json_payload_cases members byte_budget =
    rw
      (stringify-scan byte_budget (compound members)
        (record { accumulated = 0; over_limit = false }))
      (truncate-Classified (compound members) byte_budget (entries (compound members)) _
        (scan-Classified byte_budget 0 (entries (compound members)) (omega arith)))
