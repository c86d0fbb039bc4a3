-- ===== src/Squid/Router/Laws.antt =====
-- What the router of packages/indexer/squid-common/src/router.ts does with a batch.
use predictor_common.Prelude.Text.{Text, Distinct, Distinct-append, has}
use predictor_common.Prelude.Dict.{get, text_key}
use predictor_common.Prelude.{
  length-append, ℕ, ◌+◌, ◌≤◌, ◌≡◌, refl, sym, ap, ◌∙◌, inl, inr, Bool, true, false, ◌||◌, Option,
  none, some, List, [], ◌∷◌, ◌++◌, append_assoc, append-nil, leb, length, Bool-cases, if◌then◌else◌,
  arith,
}
use predictor_common.Squid.Router.{
  DispatchHandler, plain, tracked, Item, Action, ran, resulted, unhandled, drifted, RouterOpts,
  log_limit, contains, try_parse_event_name, Router, new_router, emit, noop, result_actions,
  run_entry, dispatch, process_item, process_items, process_events,
}

-- What is left of a trace without the notes of the default handler.
abbrev pub handled : List Action → List Action
handled [] = []
handled (ran h b i ∷ rest) = ran h b i ∷ handled rest
handled (resulted b i r ∷ rest) = resulted b i r ∷ handled rest
handled (unhandled n c l ∷ rest) = handled rest
handled (drifted n ∷ rest) = drifted n ∷ handled rest

-- The names of those notes, in order.
abbrev pub notes : List Action → List Text
notes [] = []
notes (ran h b i ∷ rest) = notes rest
notes (resulted b i r ∷ rest) = notes rest
notes (unhandled n c l ∷ rest) = n ∷ notes rest
notes (drifted n ∷ rest) = notes rest

handled-append : (xs ys : List Action) → handled (xs ++ ys) ≡ handled xs ++ handled ys
handled-append [] ys = refl
handled-append (ran h b i ∷ xs) ys = ap (λ t. ran h b i ∷ t) (handled-append xs ys)
handled-append (resulted b i r ∷ xs) ys = ap (λ t. resulted b i r ∷ t) (handled-append xs ys)
handled-append (unhandled n c l ∷ xs) ys = handled-append xs ys
handled-append (drifted n ∷ xs) ys = ap (λ t. drifted n ∷ t) (handled-append xs ys)

handled-result_actions :
    (is_tracked : Bool) (block : ℕ) (item : Item) (result : Option ℕ)
    → handled (result_actions is_tracked block item result)
      ≡ result_actions is_tracked block item result
handled-result_actions true block item (some result) = refl
handled-result_actions true block item none = refl
handled-result_actions false block item result = refl

module _ (o : RouterOpts) where
  -- What one item asks for, by the names and the overrides alone.
  abbrev pub asked_of : ℕ → Item → Option DispatchHandler → List Action
  asked_of block item none = []
  asked_of block item (some (plain h)) = ran h block item ∷ []
  asked_of block item (some (tracked h)) =
      ran h block item ∷ result_actions o.is_tracked block item (o.returns h item)

  abbrev pub asked : ℕ → Item → List Action
  asked block item =
      if item.is_event
      then (if contains o.all_events item.name
          then asked_of block item (get o.overrides item.name)
          else drifted item.name ∷ [])
      else []

  abbrev pub asked_items : ℕ → List Item → List Action
  asked_items block [] = []
  asked_items block (item ∷ items) = asked block item ++ asked_items block items

  abbrev pub asked_blocks : ℕ → List (List Item) → List Action
  asked_blocks block [] = []
  asked_blocks block (items ∷ blocks) = asked_items block items ++ asked_blocks (block + 1) blocks

  handled-asked_of :
      (block : ℕ) (item : Item) (h : Option DispatchHandler)
      → handled (asked_of block item h) ≡ asked_of block item h
  handled-asked_of block item none = refl
  handled-asked_of block item (some (plain h)) = refl
  handled-asked_of block item (some (tracked h)) =
      ap (λ t. ran h block item ∷ t)
        (handled-result_actions o.is_tracked block item (o.returns h item))

  handled-noop :
      (limit : ℕ) (name : Text) (r : Router) → handled (noop limit name r).trace ≡ handled r.trace
  unfolding noop
  handled-noop limit name r =
      elim (Bool-cases (has r.logged_unhandled name || leb limit (length r.logged_unhandled))) [
        | inl known ↦ rw known refl
        | inr fresh ↦ rw fresh (handled-append r.trace _ ∙ append-nil _)
      ]

  handled-run_entry :
      (block : ℕ) (item : Item) (r : Router) (h : Option DispatchHandler)
      → handled (run_entry o block item h r).trace ≡ handled r.trace ++ asked_of block item h
  unfolding run_entry
  handled-run_entry block item r none =
      handled-noop (log_limit o) item.event_name r ∙ sym (append-nil _)
  handled-run_entry block item r (some (plain h)) = handled-append r.trace _
  handled-run_entry block item r (some (tracked h)) =
      handled-append r.trace _
      ∙ ap (λ t. handled r.trace ++ t) (handled-asked_of block item (some (tracked h)))

  handled-process_item :
      (block : ℕ) (item : Item) (r : Router)
      → handled (process_item o block item r).trace ≡ handled r.trace ++ asked block item
  unfolding process_item dispatch try_parse_event_name
  handled-process_item block item r = elim (Bool-cases item.is_event) [
    | inr other ↦ rw other (sym (append-nil _))
    | inl event ↦ elim (Bool-cases (contains o.all_events item.name)) [
      | inl known ↦ simp (event, known) (handled-run_entry block item r (get o.overrides item.name))
      | inr unknown ↦ rw (event, unknown) (handled-append r.trace _)
    ]
  ]

  handled-process_items :
      (block : ℕ) (items : List Item) (r : Router)
      → handled (process_items o block items r).trace ≡ handled r.trace ++ asked_items block items
  unfolding process_items
  handled-process_items block [] r = sym (append-nil _)
  handled-process_items block (item ∷ items) r =
      handled-process_items block items (process_item o block item r)
      ∙ ap (λ t. t ++ asked_items block items) (handled-process_item block item r)
      ∙ append_assoc (handled r.trace) (asked block item) (asked_items block items)

  handled-process_events_from :
      (block : ℕ) (blocks : List (List Item)) (r : Router)
      → handled (process_events o block blocks r).trace
        ≡ handled r.trace ++ asked_blocks block blocks
  unfolding process_events
  handled-process_events_from block [] r = sym (append-nil _)
  handled-process_events_from block (items ∷ blocks) r =
      handled-process_events_from (block + 1) blocks (process_items o block items r)
      ∙ ap (λ t. t ++ asked_blocks (block + 1) blocks) (handled-process_items block items r)
      ∙ append_assoc (handled r.trace) (asked_items block items) (asked_blocks (block + 1) blocks)

-- The handlers run, the results handed on and the drift errors of a batch are those that the items
-- ask for, in the order of the blocks and their items, whatever was noted.
pub handled-process_events :
    (o : RouterOpts) (blocks : List (List Item)) (r : Router)
    → handled (process_events o 0 blocks r).trace ≡ handled r.trace ++ asked_blocks o 0 blocks
handled-process_events o = handled-process_events_from o 0

unfoldable pub Noted : ℕ → Router → Type 0
Noted limit r =
    (notes r.trace ≡ r.logged_unhandled)
    × Distinct r.logged_unhandled
    × (length r.logged_unhandled ≤ limit)

pub Noted-new_router : (limit : ℕ) → Noted limit new_router
unfolding Noted
Noted-new_router limit = (refl, tt, omega arith)

notes-append : (xs ys : List Action) → notes (xs ++ ys) ≡ notes xs ++ notes ys
notes-append [] ys = refl
notes-append (ran h b i ∷ xs) ys = notes-append xs ys
notes-append (resulted b i r ∷ xs) ys = notes-append xs ys
notes-append (unhandled n c l ∷ xs) ys = ap (λ t. n ∷ t) (notes-append xs ys)
notes-append (drifted n ∷ xs) ys = notes-append xs ys

Noted-noop :
    (limit : ℕ) (name : Text) (r : Router) → Noted limit r → Noted limit (noop limit name r)
unfolding Noted noop
Noted-noop limit name r (e, d, l) =
    elim (Bool-cases (has r.logged_unhandled name || leb limit (length r.logged_unhandled))) [
      | inl known ↦ rw known (e, d, l)
      | inr fresh ↦ rw fresh (
        notes-append r.trace _ ∙ ap (λ t. t ++ (name ∷ [])) e,
        Distinct-append r.logged_unhandled name (ground arith) d,
        ground (arith, length-append r.logged_unhandled (name ∷ [])),
      )
    ]

Noted-emit :
    (limit : ℕ) (actions : List Action) (r : Router)
    → notes actions ≡ []
    → Noted limit r
    → Noted limit (emit actions r)
unfolding Noted
Noted-emit limit actions r none_noted (e, d, l) = (
  notes-append r.trace actions ∙ ap (λ t. notes r.trace ++ t) none_noted ∙ append-nil _ ∙ e,
  d,
  l,
)

notes-result_actions :
    (is_tracked : Bool) (block : ℕ) (item : Item) (result : Option ℕ)
    → notes (result_actions is_tracked block item result) ≡ []
notes-result_actions true block item (some result) = refl
notes-result_actions true block item none = refl
notes-result_actions false block item result = refl

module _ (o : RouterOpts) where
  Noted-run_entry :
      (block : ℕ) (item : Item) (h : Option DispatchHandler) (r : Router)
      → Noted (log_limit o) r
      → Noted (log_limit o) (run_entry o block item h r)
  unfolding run_entry
  Noted-run_entry block item none r s = Noted-noop (log_limit o) item.event_name r s
  Noted-run_entry block item (some (plain h)) r s = Noted-emit (log_limit o) _ r refl s
  Noted-run_entry block item (some (tracked h)) r s =
      Noted-emit (log_limit o) _ r (notes-result_actions o.is_tracked block item (o.returns h item))
        s

  Noted-process_item :
      (block : ℕ) (item : Item) (r : Router)
      → Noted (log_limit o) r
      → Noted (log_limit o) (process_item o block item r)
  unfolding process_item dispatch try_parse_event_name
  Noted-process_item block item r s = elim (Bool-cases item.is_event) [
    | inr other ↦ rw other s
    | inl event ↦ elim (Bool-cases (contains o.all_events item.name)) [
      | inl known ↦ simp (event, known) (Noted-run_entry block item (get o.overrides item.name) r s)
      | inr unknown ↦ rw (event, unknown) (Noted-emit (log_limit o) _ r refl s)
    ]
  ]

  Noted-process_items :
      (block : ℕ) (items : List Item) (r : Router)
      → Noted (log_limit o) r
      → Noted (log_limit o) (process_items o block items r)
  unfolding process_items
  Noted-process_items block [] r s = s
  Noted-process_items block (item ∷ items) r s =
      Noted-process_items block items (process_item o block item r)
        (Noted-process_item block item r s)

-- Batch after batch, the notes are on the names of `logged_unhandled`, each once and in its order,
-- and are never more than the limit.
pub process_events-Noted :
    (o : RouterOpts) (block : ℕ) (blocks : List (List Item)) (r : Router)
    → Noted (log_limit o) r
    → Noted (log_limit o) (process_events o block blocks r)
unfolding process_events
process_events-Noted o block [] r s = s
process_events-Noted o block (items ∷ blocks) r s =
    process_events-Noted o (block + 1) blocks (process_items o block items r)
      (Noted-process_items o block items r s)
