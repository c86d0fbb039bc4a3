-- ===== src/Logger/Redaction.antt =====
-- `redact` of packages/service/logger/src/index.ts over a heap of arrays and records, which may share
-- and may be cyclic. Words tells the keys; here any test of a key will do.
pub mod Termination
pub mod Secrecy
use predictor_common.Prelude.Text.{Text}
use predictor_common.Prelude.{
  ℕ, zero, suc, Bool, true, false, ◌||◌, ◌==◌, Option, none, some, List, [], ◌∷◌, get_elem?, any,
  if◌then◌else◌,
}

-- A value: the plain ones by a number, a text, or an object by its address.
pub data Value : Type 0 where
  plain : ℕ → Value
  string : Text → Value
  ref : (address : ℕ) → Value

-- An array, a plain record by its entries, or an object that is passed through.
pub data Node : Type 0 where
  array : List Value → Node
  fields : List (Text × Value) → Node
  opaque : Node

abbrev pub Heap : Type 0
Heap = List Node

abbrev pub node_at : Heap → ℕ → Node
node_at heap a = elim (get_elem? heap a) [ none ↦ opaque | some node ↦ node ]

-- What is written: a copy, with the two markers.
mutual
  pub data Copy : Type 0 where
    kept : Value → Copy
    redacted circular : Copy
    items : Copies → Copy
    entries : Entries → Copy

  pub data Copies : Type 0 where
    nil : Copies
    cons : Copy → Copies → Copies

  pub data Entries : Type 0 where
    end : Entries
    entry : Text → Copy → Entries → Entries

abbrev pub has_seen : List ℕ → ℕ → Bool
has_seen seen a = any (λ b. b == a) seen

abbrev pub cons_item : Option Copy → Option Copies → Option Copies
cons_item none cs = none
cons_item (some c) none = none
cons_item (some c) (some cs) = some (cons c cs)

abbrev pub cons_entry : Text → Option Copy → Option Entries → Option Entries
cons_entry k none cs = none
cons_entry k (some c) none = none
cons_entry k (some c) (some cs) = some (entry k c cs)

-- The two loops, given the copy of one value.
abbrev pub copy_items : (Value → Option Copy) → List Value → Option Copies
copy_items copy [] = some nil
copy_items copy (v ∷ values) = cons_item (copy v) (copy_items copy values)

abbrev pub copy_entries :
    (Text → Bool) → (Value → Option Copy) → List (Text × Value) → Option Entries
copy_entries is_redacted copy [] = some end
copy_entries is_redacted copy ((k, v) ∷ rest) =
    cons_entry k (if is_redacted k then some redacted else copy v)
      (copy_entries is_redacted copy rest)

abbrev pub as_items : Option Copies → Option Copy
as_items none = none
as_items (some cs) = some (items cs)

abbrev pub as_entries : Option Entries → Option Copy
as_entries none = none
as_entries (some cs) = some (entries cs)

module _ (is_redacted : Text → Bool) where
  -- One object, with the copy of what lies below it; `seen` holds the objects on the path.
  abbrev pub redact_node : List ℕ → (Value → Option Copy) → ℕ → Node → Option Copy
  redact_node seen copy a opaque = some (kept (ref a))
  redact_node seen copy a (array values) = elim (has_seen seen a) [
    | true ↦ some circular
    | false ↦ as_items (copy_items copy values)
  ]
  redact_node seen copy a (fields rest) = elim (has_seen seen a) [
    | true ↦ some circular
    | false ↦ as_entries (copy_entries is_redacted copy rest)
  ]

module _ (is_redacted : Text → Bool) (heap : Heap) where
  -- By the depth left; `none` if it runs out.
  unfoldable pub redact : ℕ → List ℕ → Value → Option Copy
  redact depth seen (plain n) = some (kept (plain n))
  redact depth seen (string t) = some (kept (string t))
  redact zero seen (ref a) = none
  redact (suc depth) seen (ref a) =
      redact_node is_redacted seen (redact depth (a ∷ seen)) a (node_at heap a)
