-- ===== src/Squid/Router.antt =====
-- packages/indexer/squid-common/src/router.ts and eventName.ts: `createEventRouter` over the names
-- of `defineEventNames`. What a handler does is its entry in the trace; what a tracked handler
-- returns is given by a function of the item. Block states are the indices of the blocks.
pub mod Laws
use predictor_common.Prelude.Text.{Text, has}
use predictor_common.Prelude.Dict.{get, text_key}
use predictor_common.Prelude.{
  ℕ, suc, ◌+◌, Bool, true, false, ◌||◌, Option, none, some, List, [], ◌∷◌, ◌++◌, leb, length, any,
  if◌then◌else◌,
}

-- An override by the number of its `run`.
pub data DispatchHandler : Type 0 where
  plain : ℕ → DispatchHandler
  tracked : ℕ → DispatchHandler

pub record Item : Type 0 where
  pub is_event : Bool
  pub name : Text
  pub event_name : Text
  pub event : ℕ

-- What the router does, in order.
pub data Action : Type 0 where
  ran : (handler : ℕ) → (block : ℕ) → Item → Action
  resulted : (block : ℕ) → Item → (result : ℕ) → Action
  unhandled : (name : Text) → (count limit : ℕ) → Action
  drifted : (name : Text) → Action

-- `isTracked` is whether `makeHandlerCtx` is given; `returns` what a tracked `run` gives.
pub record RouterOpts : Type 0 where
  pub all_events : List Text
  pub overrides : List (Text × DispatchHandler)
  pub is_tracked : Bool
  pub returns : ℕ → Item → Option ℕ
  pub not_handled_log_limit : Option ℕ

abbrev pub default_not_handled_log_limit : ℕ
default_not_handled_log_limit = 32

abbrev pub log_limit : RouterOpts → ℕ
log_limit o = elim o.not_handled_log_limit [ none ↦ default_not_handled_log_limit | some n ↦ n ]

-- `schema.safeParse(name).success` of the enum of the names.
abbrev pub contains : List Text → Text → Bool
contains names name = has names name

unfoldable pub try_parse_event_name : List Text → Text → Option Text
try_parse_event_name all_events name = if contains all_events name then some name else none

-- The closure's `loggedUnhandled` and what was done.
pub record Router : Type 0 where
  pub logged_unhandled : List Text
  pub trace : List Action

abbrev pub new_router : Router
new_router = record { logged_unhandled = []; trace = [] }

abbrev pub emit : List Action → Router → Router
emit actions r = record r { trace = r.trace ++ actions }

-- The default handler.
unfoldable pub noop : ℕ → Text → Router → Router
noop limit name r =
    if has r.logged_unhandled name || leb limit (length r.logged_unhandled) then r else record {
      logged_unhandled = r.logged_unhandled ++ (name ∷ []);
      trace = r.trace ++ (unhandled name (suc (length r.logged_unhandled)) limit ∷ []);
    }

abbrev pub result_actions : Bool → ℕ → Item → Option ℕ → List Action
result_actions true block item (some result) = resulted block item result ∷ []
result_actions true block item none = []
result_actions false block item result = []

abbrev pub run_handler : RouterOpts → ℕ → Item → DispatchHandler → Router → Router
run_handler o block item (plain h) r = emit (ran h block item ∷ []) r
run_handler o block item (tracked h) r =
    emit (ran h block item ∷ result_actions o.is_tracked block item (o.returns h item)) r

-- The entry of `{ ...defaults, ...overrides }`: no override is the default handler.
unfoldable pub run_entry : RouterOpts → ℕ → Item → Option DispatchHandler → Router → Router
run_entry o block item none r = noop (log_limit o) item.event_name r
run_entry o block item (some handler) r = run_handler o block item handler r

unfoldable pub dispatch : RouterOpts → ℕ → Item → Router → Router
dispatch o block item r = run_entry o block item (get o.overrides item.name) r

unfoldable pub process_item : RouterOpts → ℕ → Item → Router → Router
process_item o block item r =
    if item.is_event
    then elim (try_parse_event_name o.all_events item.name) [
      | none ↦ emit (drifted item.name ∷ []) r
      | some name ↦ dispatch o block item r
    ]
    else r

unfoldable pub process_items : RouterOpts → ℕ → List Item → Router → Router
process_items o block [] r = r
process_items o block (item ∷ items) r = process_items o block items (process_item o block item r)

-- The loop over the blocks, from the index of the first.
unfoldable pub process_events : RouterOpts → ℕ → List (List Item) → Router → Router
process_events o block [] r = r
process_events o block (items ∷ blocks) r =
    process_events o (block + 1) blocks (process_items o block items r)
