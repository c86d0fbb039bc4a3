-- ===== src/Squid/DecodeEvent.antt =====
-- packages/indexer/squid-common/src/decodeEvent.ts: the version of an event that a generated class has
-- decoded. The instance is given by its keys, the names of its prototype and its properties.
pub mod Versions
pub mod Selection
use predictor_common.Prelude.Text.{Text, codes, starts_with}
use predictor_common.Prelude.Digits.{decimal, value, is_digit}
use predictor_common.Prelude.{
  ℕ, Bool, true, false, ◌&&◌, ◌==◌, Option, none, some, List, [], ◌∷◌, ◌++◌, any, all, drop, length,
  leb, ltb, if◌then◌else◌,
}

-- `is_true name` is `decoded[name] === true`.
pub record Decoded {ℓ} (P : Type ℓ) : Type ℓ where
  pub own_keys : List Text
  pub prototype_names : List Text
  pub is_true : Text → Bool
  pub property : Text → P

pub data Event {ℓ} (P : Type ℓ) : Type ℓ where
  payload : P → Event P
  rejected_by_schema : Event P
  unsupported : (known : List ℕ) → Event P

-- `/^isV(\d+)$/` and the number of its group.
abbrev pub number_of : Text → Option ℕ
number_of [] = none
number_of (c ∷ s) = if all is_digit (c ∷ s) then some (value (c ∷ s)) else none

abbrev pub version_of : Text → Option ℕ
version_of key = if starts_with key (codes "isV") then number_of (drop 3 key) else none

-- `add` of a `Set` in the order of insertion.
abbrev pub add_version : List ℕ → ℕ → List ℕ
add_version versions v = if any (λ w. w == v) versions then versions else versions ++ (v ∷ [])

abbrev pub add_matched : List ℕ → Option ℕ → List ℕ
add_matched versions none = versions
add_matched versions (some v) = add_version versions v

unfoldable pub add_keys : List ℕ → List Text → List ℕ
add_keys versions [] = versions
add_keys versions (key ∷ keys) = add_keys (add_matched versions (version_of key)) keys

-- `sort((a, b) => b - a)`.
unfoldable pub insert_version : ℕ → List ℕ → List ℕ
insert_version v [] = v ∷ []
insert_version v (w ∷ versions) =
    let rest = insert_version v versions in if leb w v then v ∷ w ∷ versions else w ∷ rest

unfoldable pub sort_versions : List ℕ → List ℕ
sort_versions [] = []
sort_versions (v ∷ versions) = insert_version v (sort_versions versions)

abbrev pub is_flag : ℕ → Text
is_flag v = codes "isV" ++ decimal v

abbrev pub as_name : ℕ → Text
as_name v = codes "asV" ++ decimal v

-- The first version whose flag is set.
unfoldable pub first_set : (Text → Bool) → List ℕ → Option ℕ
first_set is_true [] = none
first_set is_true (v ∷ versions) =
    let rest = first_set is_true versions in if is_true (is_flag v) then some v else rest

abbrev pub parsed {ℓ} : {P : Type ℓ} → Option P → Event P
parsed none = rejected_by_schema
parsed (some p) = payload p

-- `schema ? schema.parse(payload) : payload`.
abbrev pub validate {ℓ} : {P : Type ℓ} → Option (P → Option P) → P → Event P
validate none p = payload p
validate (some parse) p = parsed (parse p)

module _ {ℓ} {P : Type ℓ} (schema : Option (P → Option P)) (decoded : Decoded P) where
  abbrev pub known_versions : List ℕ
  known_versions = sort_versions (add_keys (add_keys [] decoded.own_keys) decoded.prototype_names)

  abbrev pub select : Option ℕ → Event P
  select none = unsupported known_versions
  select (some v) = validate schema (decoded.property (as_name v))

  unfoldable pub decode_event : Event P
  decode_event = select (first_set decoded.is_true known_versions)
