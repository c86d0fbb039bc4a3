-- ===== src/Logger/Levels/Fields.antt =====
-- The fields that a logger of packages/service/logger/src/index.ts is bound to, read key by key.
use predictor_common.Prelude.Text.{Text, text_eq}
use predictor_common.Prelude.Dict.{get, put, get-put, text_key}
use predictor_common.Prelude.{
  ℕ, zero, suc, ◌≡◌, refl, sym, ap, ◌∙◌, inl, inr, Option, none, some, List, [], ◌∷◌, ◌++◌,
  append_assoc, append-nil, length, get_elem?, Option-cases, if◌then◌else◌, arith,
}
use predictor_common.Logger.Redaction.{Value, fields, Heap, node_at, Copy, Entries, end, entry}
use predictor_common.Logger.Redaction.Termination.{node_at-none, node_at-some}
use predictor_common.Logger.Levels.{or_else, spread, entries_of, copies_of, alloc}

-- What a key is bound to after these bindings, where it was bound to `older`: the last one counts.
abbrev pub latest {ℓ} : {V : Type ℓ} → List (Text × V) → Text → Option V → Option V
latest [] k older = older
latest ((j, v) ∷ b) k older = latest b k (if text_eq j k then some v else older)

abbrev pub latest_entry : Entries → Text → Option Copy → Option Copy
latest_entry end k older = older
latest_entry (entry j c es) k older = latest_entry es k (if text_eq j k then some c else older)

pub latest-copies_of :
    (es : Entries) (k : Text) (older : Option Copy)
    → latest (copies_of es) k older ≡ latest_entry es k older
latest-copies_of end k older = refl
latest-copies_of (entry j c es) k older =
    latest-copies_of es k (if text_eq j k then some c else older)

pub get-spread {ℓ} :
    {V : Type ℓ} (d b : List (Text × V)) (k : Text) → get (spread d b) k ≡ latest b k (get d k)
get-spread d [] k = refl
get-spread d ((j, v) ∷ b) k = get-spread (put d j v) b k ∙ ap (latest b k) (get-put d j v k)

-- The options' base, and then the bindings of one child after another.
abbrev pub base_field : Heap → Option ℕ → Text → Option Value
base_field heap none k = none
base_field heap (some a) k = get (entries_of (node_at heap a)) k

abbrev pub chained : List (List (Text × Value)) → (Text → Option Value) → Text → Option Value
chained [] bound = bound
chained (b ∷ rest) bound = chained rest (λ k. latest b k (bound k))

-- A record that binds each key so.
abbrev pub HasFields : Heap → ℕ → (Text → Option Value) → Type 0
HasFields heap a bound =
    (es : List (Text × Value)) × (node_at heap a ≡ fields es) × ((k : Text) → get es k ≡ bound k)

-- A logger's base is a record.
abbrev pub IsRecord : Heap → ℕ → Type 0
IsRecord heap a = (es : List (Text × Value)) × (node_at heap a ≡ fields es)

-- The first heap, and new objects behind it.
abbrev pub Extends : Heap → Heap → Type 0
Extends heap heap' = (more : Heap) × (heap' ≡ heap ++ more)

pub Extends-refl : (heap : Heap) → Extends heap heap
Extends-refl heap = ([], sym (append-nil heap))

pub Extends-alloc :
    (heap heap' : Heap) (es : List (Text × Value))
    → Extends heap heap'
    → Extends heap (alloc heap' es).0
Extends-alloc heap heap' es (more, e) = (
  more ++ (fields es ∷ []),
  ap (λ h. h ++ (fields es ∷ [])) e ∙ append_assoc heap more (fields es ∷ []),
)

get_elem?-last {ℓ} :
    {A : Type ℓ} (xs : List A) (x : A) → get_elem? (xs ++ (x ∷ [])) (length xs) ≡ some x
get_elem?-last [] x = refl
get_elem?-last (y ∷ xs) x = get_elem?-last xs x

get_elem?-append {ℓ} :
    {A : Type ℓ} (xs ys : List A) (i : ℕ) (x : A)
    → get_elem? xs i ≡ some x
    → get_elem? (xs ++ ys) i ≡ some x
get_elem?-append [] ys i x h = grind arith
get_elem?-append (z ∷ xs) ys zero x h = h
get_elem?-append (z ∷ xs) ys (suc i) x h = get_elem?-append xs ys i x h

node_at-append :
    (heap more : Heap) (a : ℕ) (es : List (Text × Value))
    → node_at heap a ≡ fields es
    → node_at (heap ++ more) a ≡ fields es
node_at-append heap more a es h = elim (Option-cases (get_elem? heap a)) [
  | inl outside ↦ grind (arith, node_at-none heap a outside)
  | inr (node, e) ↦
      node_at-some (heap ++ more) a node (get_elem?-append heap more a node e)
      ∙ sym (node_at-some heap a node e)
      ∙ h
]

pub HasFields-append :
    (heap more : Heap) (a : ℕ) (bound : Text → Option Value)
    → HasFields heap a bound
    → HasFields (heap ++ more) a bound
HasFields-append heap more a bound (es, at, binds) = (es, node_at-append heap more a es at, binds)

pub alloc-HasFields :
    (heap : Heap) (es : List (Text × Value)) (bound : Text → Option Value)
    → ((k : Text) → get es k ≡ bound k)
    → HasFields (alloc heap es).0 (alloc heap es).1 bound
alloc-HasFields heap es bound binds =
    (es, rw (get_elem?-last heap (fields es), node_at) refl, binds)

-- A merge of bindings into a record.
pub merge-HasFields :
    (heap : Heap) (a : ℕ) (b : List (Text × Value)) (bound : Text → Option Value)
    → HasFields heap a bound
    → HasFields
        (alloc heap (spread (entries_of (node_at heap a)) b)).0
        (alloc heap (spread (entries_of (node_at heap a)) b)).1
        (λ k. latest b k (bound k))
merge-HasFields heap a b bound (es, at, binds) =
    alloc-HasFields heap (spread (entries_of (node_at heap a)) b) (λ k. latest b k (bound k))
      (λ k.
        get-spread (entries_of (node_at heap a)) b k
        ∙ ap (λ node. latest b k (get (entries_of node) k)) at
        ∙ ap (latest b k) (binds k))

pub base-HasFields :
    (heap : Heap) (o : Option ℕ)
    → ((a : ℕ) → o ≡ some a → IsRecord heap a)
    → HasFields (alloc heap []).0 (or_else o (length heap)) (base_field heap o)
base-HasFields heap none given = alloc-HasFields heap [] (λ k. none) (λ k. refl)
base-HasFields heap (some a) given =
    let (es, at) = given a refl in
    (
      es,
      node_at-append heap (fields [] ∷ []) a es at,
      λ k. sym (ap (λ node. get (entries_of node) k) at),
    )
