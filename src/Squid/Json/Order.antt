-- ===== src/Squid/Json/Order.antt =====
-- The values of a payload in the order in which `JSON.stringify` comes to them, for `truncateJsonPayload`
-- of packages/indexer/squid-common/src/json.ts.
use predictor_common.Prelude.{
  ℕ, ◌+◌, ◌≡◌, refl, sym, ap, ◌∙◌, Bool, true, false, Option, none, some, List, [], ◌∷◌, ◌++◌,
  length, if◌then◌else◌,
}
use predictor_common.Squid.Json.{
  Json, scalar, big_int, cycle, text_value, compound, Members, no_more, member, Tally, replacer,
  and_then, stringify, stringify_members,
}

-- A value's size, and whether it cannot be written.
abbrev pub Entry : Type 0
Entry = ℕ × Bool

mutual
  pub entries : Json → List Entry
  entries scalar = (10, false) ∷ []
  entries (text_value s) = (length s, false) ∷ []
  entries big_int = (10, true) ∷ []
  entries cycle = (10, true) ∷ []
  entries (compound members) = (10, false) ∷ member_entries members

  pub member_entries : Members → List Entry
  member_entries no_more = []
  member_entries (member v members) = entries v ++ member_entries members

abbrev pub total : List Entry → ℕ
total [] = 0
total ((size, breaks) ∷ list) = size + total list

module _ (byte_budget : ℕ) where
  unfoldable pub step : Entry → Tally → Option Tally
  step (size, breaks) tally =
      let t = replacer byte_budget size tally in
      if t.over_limit then some t else (if breaks then none else some t)

  unfoldable pub scan : List Entry → Tally → Option Tally
  scan [] tally = some tally
  scan (entry ∷ list) tally = and_then byte_budget (step entry tally) (λ t. scan list t)

  and_then_assoc :
      (o : Option Tally) (f g : Tally → Option Tally)
      → and_then byte_budget o (λ t. and_then byte_budget (f t) g)
        ≡ and_then byte_budget (and_then byte_budget o f) g
  and_then_assoc none f g = refl
  and_then_assoc (some t) f g = refl

  scan-append :
      (xs ys : List Entry) (tally : Tally)
      → scan (xs ++ ys) tally ≡ and_then byte_budget (scan xs tally) (λ t. scan ys t)
  unfolding scan
  scan-append [] ys tally = refl
  scan-append (entry ∷ xs) ys tally =
      (λ i. and_then byte_budget (step entry tally) (λ t. scan-append xs ys t i))
      ∙ and_then_assoc (step entry tally) (λ t. scan xs t) (λ t. scan ys t)

  pub scan-over :
      (list : List Entry) (n : ℕ)
      → scan list (record { accumulated = n; over_limit = true })
        ≡ some (record { accumulated = n; over_limit = true })
  unfolding scan step
  scan-over [] n = refl
  scan-over ((size, breaks) ∷ list) n = scan-over list n

  written :
      (b : Bool) (t : Tally)
      → some t ≡ and_then byte_budget (if b then some t else some t) (λ u. some u)
  written true t = refl
  written false t = refl

  broken :
      (b : Bool) (t : Tally)
      → (if b then some t else none)
        ≡ and_then byte_budget (if b then some t else none) (λ u. some u)
  broken true t = refl
  broken false t = refl

  gone_into :
      (list : List Entry) (n : ℕ) (b : Bool)
      → (if b
          then some (record { accumulated = n; over_limit = b })
          else scan list (record { accumulated = n; over_limit = b }))
        ≡ and_then byte_budget
            (if b
              then some (record { accumulated = n; over_limit = b })
              else some (record { accumulated = n; over_limit = b }))
            (λ t. scan list t)
  gone_into list n true = sym (scan-over list n)
  gone_into list n false = refl

  mutual
    unfolding stringify scan step entries

    pub stringify-scan :
        (v : Json) (tally : Tally) → stringify byte_budget v tally ≡ scan (entries v) tally
    stringify-scan scalar tally =
        written (replacer byte_budget 10 tally).over_limit (replacer byte_budget 10 tally)
    stringify-scan (text_value s) tally =
        written (replacer byte_budget (length s) tally).over_limit
          (replacer byte_budget (length s) tally)
    stringify-scan big_int tally =
        broken (replacer byte_budget 10 tally).over_limit (replacer byte_budget 10 tally)
    stringify-scan cycle tally =
        broken (replacer byte_budget 10 tally).over_limit (replacer byte_budget 10 tally)
    stringify-scan (compound members) tally =
        let t = replacer byte_budget 10 tally in
        ap (λ rest. if t.over_limit then some t else rest) (stringify_members-scan members t)
        ∙ gone_into (member_entries members) t.accumulated t.over_limit

    stringify_members-scan :
        (members : Members) (tally : Tally)
        → stringify_members byte_budget members tally ≡ scan (member_entries members) tally
    stringify_members-scan no_more tally = refl
    stringify_members-scan (member v members) tally =
        (λ i.
          and_then byte_budget (stringify-scan v tally i) (λ t. stringify_members-scan members t i))
        ∙ sym (scan-append (entries v) (member_entries members) tally)
