-- ===== src/Logger/Redaction/Secrecy.antt =====
-- That `redact` of packages/service/logger/src/index.ts lets nothing through from under a redacted key.
use mathlib.Core.Path.{subst}
use predictor_common.Prelude.Text.{Text}
use predictor_common.Logger.Redaction.Termination.{IsCopy, redact-IsCopy}
use predictor_common.Prelude.{
  ℕ, zero, suc, ◌≡◌, refl, sym, ap, ◌∙◌, ◌⊎◌, inl, inr, Bool, true, false, Option, some, List, [],
  ◌∷◌, length, ◌<◌, if◌then◌else◌,
}
use predictor_common.Logger.Redaction.{
  Value, plain, string, ref, Node, array, fields, opaque, Heap, node_at, Copy, redacted, circular,
  cons_item, cons_entry, has_seen, copy_items, copy_entries, as_items, as_entries, redact_node,
  redact,
}

-- `Public` tells the objects that may be read; the others are secret.
module _ (is_redacted : Text → Bool) (Public : ℕ → Type 0) where
  abbrev pub IsPublic : Value → Type 0
  IsPublic (plain n) = Unit
  IsPublic (string t) = Unit
  IsPublic (ref a) = Public a

  abbrev pub LikeItems : List Value → List Value → Type 0
  LikeItems [] [] = Unit
  LikeItems [] (w ∷ ws) = ⊥
  LikeItems (v ∷ vs) [] = ⊥
  LikeItems (v ∷ vs) (w ∷ ws) = (v ≡ w) × IsPublic v × LikeItems vs ws

  -- The same keys, and the same public values where the key is not redacted.
  abbrev pub LikeEntries : List (Text × Value) → List (Text × Value) → Type 0
  LikeEntries [] [] = Unit
  LikeEntries [] (e ∷ es) = ⊥
  LikeEntries (e ∷ es) [] = ⊥
  LikeEntries ((k, v) ∷ es) ((j, w) ∷ fs) =
      (k ≡ j) × ((is_redacted k ≡ true) ⊎ ((v ≡ w) × IsPublic v)) × LikeEntries es fs

  abbrev pub LikeNode : Node → Node → Type 0
  LikeNode opaque opaque = Unit
  LikeNode (array vs) (array ws) = LikeItems vs ws
  LikeNode (fields es) (fields fs) = LikeEntries es fs
  LikeNode _ _ = ⊥

  copy_items-like :
      (f g : Value → Option Copy) (vs ws : List Value)
      → ((v : Value) → IsPublic v → f v ≡ g v)
      → LikeItems vs ws
      → copy_items f vs ≡ copy_items g ws
  copy_items-like f g [] [] h like = refl
  copy_items-like f g [] (w ∷ ws) h like = absurd like
  copy_items-like f g (v ∷ vs) [] h like = absurd like
  copy_items-like f g (v ∷ vs) (w ∷ ws) h (e, p, like) =
      (λ i. cons_item (h v p i) (copy_items-like f g vs ws h like i))
      ∙ ap (λ x. cons_item (g x) (copy_items g ws)) e

  copy_entries-like :
      (f g : Value → Option Copy) (es fs : List (Text × Value))
      → ((v : Value) → IsPublic v → f v ≡ g v)
      → LikeEntries es fs
      → copy_entries is_redacted f es ≡ copy_entries is_redacted g fs
  copy_entries-like f g [] [] h like = refl
  copy_entries-like f g [] (e ∷ fs) h like = absurd like
  copy_entries-like f g (e ∷ es) [] h like = absurd like
  copy_entries-like f g ((k, v) ∷ es) ((j, w) ∷ fs) h (key, inl hidden, like) =
      let hide : (x : Option Copy) → (if is_redacted k then some redacted else x) ≡ some redacted =
        λ x. rw hidden refl in
      (λ i. cons_entry k ((hide (f v) ∙ sym (hide (g w))) i) (copy_entries-like f g es fs h like i))
      ∙ ap
          (λ x.
            cons_entry x (if is_redacted x then some redacted else g w)
              (copy_entries is_redacted g fs))
          key
  copy_entries-like f g ((k, v) ∷ es) ((j, w) ∷ fs) h (key, inr (e, p), like) =
      (λ i.
        cons_entry k (if is_redacted k then some redacted else (h v p ∙ ap g e) i)
          (copy_entries-like f g es fs h like i))
      ∙ ap
          (λ x.
            cons_entry x (if is_redacted x then some redacted else g w)
              (copy_entries is_redacted g fs))
          key

  module _ (heap heap' : Heap) where
    redact_node-like :
        (seen : List ℕ) (f g : Value → Option Copy) (a : ℕ) (node node' : Node)
        → ((v : Value) → IsPublic v → f v ≡ g v)
        → LikeNode node node'
        → redact_node is_redacted seen f a node ≡ redact_node is_redacted seen g a node'
    redact_node-like seen f g a opaque opaque h like = refl
    redact_node-like seen f g a opaque (array ws) h like = absurd like
    redact_node-like seen f g a opaque (fields fs) h like = absurd like
    redact_node-like seen f g a (array vs) opaque h like = absurd like
    redact_node-like seen f g a (array vs) (fields fs) h like = absurd like
    redact_node-like seen f g a (fields es) opaque h like = absurd like
    redact_node-like seen f g a (fields es) (array ws) h like = absurd like
    redact_node-like seen f g a (array vs) (array ws) h like =
        ap
          (λ x. elim (has_seen seen a) as (λ b. Option Copy) [
            | true ↦ some circular
            | false ↦ as_items x
          ])
          (copy_items-like f g vs ws h like)
    redact_node-like seen f g a (fields es) (fields fs) h like =
        ap
          (λ x. elim (has_seen seen a) as (λ b. Option Copy) [
            | true ↦ some circular
            | false ↦ as_entries x
          ])
          (copy_entries-like f g es fs h like)

    redact-like :
        ((a : ℕ) → Public a → LikeNode (node_at heap a) (node_at heap' a))
        → (depth : ℕ) (seen : List ℕ) (v : Value) → IsPublic v
        → redact is_redacted heap depth seen v ≡ redact is_redacted heap' depth seen v
    unfolding redact
    redact-like like depth seen (plain n) p = refl
    redact-like like depth seen (string t) p = refl
    redact-like like zero seen (ref a) p = refl
    redact-like like (suc depth) seen (ref a) p =
        redact_node-like seen (redact is_redacted heap depth (a ∷ seen))
          (redact is_redacted heap' depth (a ∷ seen)) a (node_at heap a) (node_at heap' a)
          (redact-like like depth (a ∷ seen)) (like a p)

-- Let two heaps have, at each public object, the same array of public values, or a record with the
-- same keys and the same public values but under redacted keys; what stands there, and every other
-- object, may differ. Then at a depth above the number of objects of either, a public value has
-- one copy, the same in both, in which no array and no record of either heap is kept as it is and every
-- entry under a redacted key is the marker: what is written tells nothing of the secrets.
pub redact_secret :
    (is_redacted : Text → Bool) (Public : ℕ → Type 0) (heap heap' : Heap)
    → ((a : ℕ) → Public a → LikeNode is_redacted Public (node_at heap a) (node_at heap' a))
    → (depth : ℕ) (seen : List ℕ) (v : Value) → IsPublic is_redacted Public v
    → length heap < depth
    → length heap' < depth
    → (c : Copy) × (redact is_redacted heap depth seen v ≡ some c)
      × (redact is_redacted heap' depth seen v ≡ some c)
      × IsCopy is_redacted heap seen c v
      × IsCopy is_redacted heap' seen c v
redact_secret is_redacted Public heap heap' like depth seen v p enough enough' =
    let (c, e, is) = redact-IsCopy is_redacted heap depth seen v enough in
    let (c', e', is') = redact-IsCopy is_redacted heap' depth seen v enough' in
    let alike = redact-like is_redacted Public heap heap' like depth seen v p in
    let same : c' ≡ c = cc (e, e', alike) in
    (c, e, sym alike ∙ e, is, subst (λ x. IsCopy is_redacted heap' seen x v) same is')
