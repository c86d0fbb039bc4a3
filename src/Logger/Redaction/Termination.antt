-- ===== src/Logger/Redaction/Termination.antt =====
-- That `redact` of packages/service/logger/src/index.ts ends on every heap, cyclic ones included, and
-- what its copy is.
use mathlib.Core.Path.{subst}
use predictor_common.Prelude.Text.{Text}
use predictor_common.Prelude.{
  ℕ, zero, suc, ◌+◌, ◌≤◌, ◌<◌, ◌≡◌, ◌≢◌, ◌⊎◌, refl, inl, inr, Bool, true, false, ◌==◌, ==_iff,
  Option, none, some, List, [], ◌∷◌, length, get_elem?, Bool-cases, Option-cases, if◌then◌else◌,
  arith,
}
use predictor_common.Logger.Redaction.{
  Value, plain, string, ref, Node, array, fields, opaque, Heap, node_at, Copy, Copies, Entries,
  kept, redacted, circular, items, entries, nil, cons, end, entry, has_seen, copy_items,
  copy_entries, redact_node, redact,
}

-- What a copy of a value must be, whatever way it is made. `seen` holds the objects on the path.
module _ (is_redacted : Text → Bool) (heap : Heap) where
  abbrev mutual
    pub IsCopy : List ℕ → Copy → Value → Type 0
    IsCopy seen (kept (plain n)) v = v ≡ plain n
    IsCopy seen (kept (string t)) v = v ≡ string t
    IsCopy seen (kept (ref a)) v = (v ≡ ref a) × (node_at heap a ≡ opaque)
    IsCopy seen redacted v = ⊥
    IsCopy seen circular v =
        (a : ℕ) × (v ≡ ref a) × (node_at heap a ≢ opaque) × (has_seen seen a ≡ true)
    IsCopy seen (items cs) v =
        (a : ℕ) × (vs : List Value) × (v ≡ ref a)
        × (node_at heap a ≡ array vs)
        × (has_seen seen a ≡ false)
        × AreCopies (a ∷ seen) cs vs
    IsCopy seen (entries cs) v =
        (a : ℕ) × (es : List (Text × Value)) × (v ≡ ref a)
        × (node_at heap a ≡ fields es)
        × (has_seen seen a ≡ false)
        × EntriesAreCopies (a ∷ seen) cs es

    -- Item by item.
    pub AreCopies : List ℕ → Copies → List Value → Type 0
    AreCopies seen nil [] = Unit
    AreCopies seen nil (v ∷ vs) = ⊥
    AreCopies seen (cons c cs) [] = ⊥
    AreCopies seen (cons c cs) (v ∷ vs) = IsCopy seen c v × AreCopies seen cs vs

    -- The same keys in order; under a redacted one the marker, under any other a copy.
    pub EntriesAreCopies : List ℕ → Entries → List (Text × Value) → Type 0
    EntriesAreCopies seen end [] = Unit
    EntriesAreCopies seen end (e ∷ es) = ⊥
    EntriesAreCopies seen (entry k c cs) [] = ⊥
    EntriesAreCopies seen (entry k c cs) ((j, v) ∷ es) =
        (k ≡ j)
        × (((is_redacted j ≡ true) × (c ≡ redacted)) ⊎ ((is_redacted j ≡ false) × IsCopy seen c v))
        × EntriesAreCopies seen cs es

  -- The result is there, and is a copy.
  abbrev Done : List ℕ → Value → Option Copy → Type 0
  Done seen v result = (c : Copy) × (result ≡ some c) × IsCopy seen c v

  copy_items_total :
      (seen : List ℕ) (copy : Value → Option Copy) (values : List Value)
      → ((v : Value) → Done seen v (copy v))
      → (cs : Copies) × (copy_items copy values ≡ some cs) × AreCopies seen cs values
  copy_items_total seen copy [] total = (nil, refl, tt)
  copy_items_total seen copy (v ∷ values) total =
      let (c, e, is) = total v in
      let (cs, es, are) = copy_items_total seen copy values total in
      (cons c cs, rw (e, es) refl, (is, are))

  copy_entries_total :
      (seen : List ℕ) (copy : Value → Option Copy) (rest : List (Text × Value))
      → ((v : Value) → Done seen v (copy v))
      → (cs : Entries) × (copy_entries is_redacted copy rest ≡ some cs)
        × EntriesAreCopies seen cs rest
  copy_entries_total seen copy [] total = (end, refl, tt)
  copy_entries_total seen copy ((k, v) ∷ rest) total =
      let (c, e, is) = total v in
      let (cs, es, are) = copy_entries_total seen copy rest total in
      elim (Bool-cases (is_redacted k)) [
        | inl hidden ↦ (entry k redacted cs, rw (hidden, es) refl, (refl, inl (hidden, refl), are))
        | inr shown ↦ (entry k c cs, rw (shown, e, es) refl, (refl, inr (shown, is), are))
      ]

-- The addresses below a bound that are not on the path.
abbrev unseen : ℕ → List ℕ → ℕ
unseen zero seen = 0
unseen (suc n) seen = (if has_seen seen n then 0 else 1) + unseen n seen

unseen-cons_le : (n a : ℕ) (seen : List ℕ) → unseen n (a ∷ seen) ≤ unseen n seen
unseen-cons_le zero a seen = omega arith
unseen-cons_le (suc n) a seen = ground (arith, unseen-cons_le n a seen)

unseen-cons :
    (n a : ℕ) (seen : List ℕ)
    → a < n
    → has_seen seen a ≡ false
    → suc (unseen n (a ∷ seen)) ≤ unseen n seen
unseen-cons zero a seen h fresh = absurd (omega arith)
unseen-cons (suc n) a seen h fresh = elim (Bool-cases (a == n)) [
  | inl same ↦
      let is : a ≡ n = (==_iff a n).0 same in
      let missing : has_seen seen n ≡ false = subst (λ x. has_seen seen x ≡ false) is fresh in
      rw (same, missing) (omega (arith, unseen-cons_le n a seen))
  | inr other ↦
      let below : a < n = ground (arith, other) in
      rw other (omega (arith, unseen-cons n a seen below fresh))
]

get_elem?-lt {ℓ} :
    {A : Type ℓ} (xs : List A) (i : ℕ) (x : A) → get_elem? xs i ≡ some x → i < length xs
get_elem?-lt [] i x h = grind arith
get_elem?-lt (y ∷ xs) zero x h = omega arith
get_elem?-lt (y ∷ xs) (suc i) x h = omega (arith, get_elem?-lt xs i x h)

pub node_at-none : (heap : Heap) (a : ℕ) → get_elem? heap a ≡ none → node_at heap a ≡ opaque
node_at-none heap a e = rw (e, node_at) refl

pub node_at-some :
    (heap : Heap) (a : ℕ) (node : Node) → get_elem? heap a ≡ some node → node_at heap a ≡ node
node_at-some heap a node e = rw (e, node_at) refl

opaque≢array : {vs : List Value} → array vs ≢ opaque
opaque≢array e = cc e

opaque≢fields : {es : List (Text × Value)} → fields es ≢ opaque
opaque≢fields e = cc e

module _ (is_redacted : Text → Bool) (heap : Heap) where
  redact_node_total :
      (seen : List ℕ) (copy : Value → Option Copy) (a : ℕ) (node : Node)
      → node_at heap a ≡ node
      → (node ≢ opaque
          → has_seen seen a ≡ false
          → (v : Value) → Done is_redacted heap (a ∷ seen) v (copy v))
      → Done is_redacted heap seen (ref a) (redact_node is_redacted seen copy a node)
  redact_node_total seen copy a opaque at total = (kept (ref a), refl, (refl, at))
  redact_node_total seen copy a (array values) at total = elim (Bool-cases (has_seen seen a)) [
    | inl again ↦ (circular, rw (again, redact_node) refl, (a, refl, rw at opaque≢array, again))
    | inr fresh ↦
        let (cs, e, are) =
          copy_items_total is_redacted heap (a ∷ seen) copy values (total opaque≢array fresh) in
        (items cs, rw (fresh, e, redact_node) refl, (a, values, refl, at, fresh, are))
  ]
  redact_node_total seen copy a (fields rest) at total = elim (Bool-cases (has_seen seen a)) [
    | inl again ↦ (circular, rw (again, redact_node) refl, (a, refl, rw at opaque≢fields, again))
    | inr fresh ↦
        let (cs, e, are) =
          copy_entries_total is_redacted heap (a ∷ seen) copy rest (total opaque≢fields fresh) in
        (entries cs, rw (fresh, e, redact_node) refl, (a, rest, refl, at, fresh, are))
  ]

  -- An object that is no opaque one stands in the heap.
  node_at-lt : (a : ℕ) → node_at heap a ≢ opaque → a < length heap
  node_at-lt a some_node = elim (Option-cases (get_elem? heap a)) [
    | inl outside ↦ absurd (some_node (node_at-none heap a outside))
    | inr (node, e) ↦ get_elem?-lt heap a node e
  ]

  redact_total :
      (depth : ℕ) (seen : List ℕ) (v : Value)
      → unseen (length heap) seen < depth
      → Done is_redacted heap seen v (redact is_redacted heap depth seen v)
  unfolding redact
  redact_total depth seen (plain n) enough = (kept (plain n), refl, refl)
  redact_total depth seen (string t) enough = (kept (string t), refl, refl)
  redact_total zero seen (ref a) enough = absurd (omega arith)
  redact_total (suc depth) seen (ref a) enough =
      redact_node_total seen (redact is_redacted heap depth (a ∷ seen)) a (node_at heap a) refl
        (λ some_node fresh v.
          redact_total depth (a ∷ seen) v (
            omega (arith, enough, unseen-cons (length heap) a seen (node_at-lt a some_node) fresh)))

unseen-le : (n : ℕ) (seen : List ℕ) → unseen n seen ≤ n
unseen-le zero seen = omega arith
unseen-le (suc n) seen = ground (arith, unseen-le n seen)

-- On every heap, shared and cyclic objects included, and at every depth above the number of objects,
-- the copy of a value is finished. It has the same plain values and texts, and copies in order the items of an
-- array and the entries of a record; an entry under a redacted key, at any depth, is the marker; an array or a
-- record is marked circular just where it lies on its own path, and only an opaque object is kept as it is.
pub redact-IsCopy :
    (is_redacted : Text → Bool) (heap : Heap) (depth : ℕ) (seen : List ℕ) (v : Value)
    → length heap < depth
    → (c : Copy) × (redact is_redacted heap depth seen v ≡ some c)
      × IsCopy is_redacted heap seen c v
redact-IsCopy is_redacted heap depth seen v enough =
    redact_total is_redacted heap depth seen v (omega (arith, unseen-le (length heap) seen))
