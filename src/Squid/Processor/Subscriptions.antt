-- ===== src/Squid/Processor/Subscriptions.antt =====
-- What the processor of packages/indexer/squid-common/src/processor.ts is subscribed to.
use predictor_common.Prelude.Text.{Text}
use predictor_common.Prelude.{
  ◌≡◌, refl, ap, true, false, Option, none, some, List, [], ◌∷◌, ◌++◌, map, Bool-cases, ◌≢◌, ◌⊎◌,
  inl, inr,
}
use predictor_common.Squid.Processor.{
  Selection, Opts, BuilderCall, set_data_source, set_block_range, include_all, add_event, add_call,
  listed, has_names, event_config_of, builder_calls, create_substrate_processor,
}

-- What a sequence of calls subscribes to, and what it configures.
abbrev pub event_subscriptions : List BuilderCall → List (Text × Selection)
event_subscriptions [] = []
event_subscriptions (add_event name config ∷ rest) = (name, config) ∷ event_subscriptions rest
event_subscriptions (add_call name config ∷ rest) = event_subscriptions rest
event_subscriptions (set_data_source s ∷ rest) = event_subscriptions rest
event_subscriptions (set_block_range r ∷ rest) = event_subscriptions rest
event_subscriptions (include_all ∷ rest) = event_subscriptions rest

abbrev pub call_subscriptions : List BuilderCall → List (Text × Option Selection)
call_subscriptions [] = []
call_subscriptions (add_event name config ∷ rest) = call_subscriptions rest
call_subscriptions (add_call name config ∷ rest) = (name, config) ∷ call_subscriptions rest
call_subscriptions (set_data_source s ∷ rest) = call_subscriptions rest
call_subscriptions (set_block_range r ∷ rest) = call_subscriptions rest
call_subscriptions (include_all ∷ rest) = call_subscriptions rest

module _ (config : Selection) (of_calls : Option Selection) where
  abbrev subscribing : List Text → List Text → List BuilderCall
  subscribing events calls =
      map (λ event. add_event event config) events ++ map (λ call. add_call call of_calls) calls

  events-subscribing :
      (events calls : List Text)
      → event_subscriptions (subscribing events calls) ≡ map (λ event. (event, config)) events
  events-subscribing [] [] = refl
  events-subscribing [] (c ∷ calls) = events-subscribing [] calls
  events-subscribing (e ∷ events) calls =
      ap (λ l. (e, config) ∷ l) (events-subscribing events calls)

  calls-subscribing :
      (events calls : List Text)
      → call_subscriptions (subscribing events calls) ≡ map (λ call. (call, of_calls)) calls
  calls-subscribing [] [] = refl
  calls-subscribing [] (c ∷ calls) = ap (λ l. (c, of_calls) ∷ l) (calls-subscribing [] calls)
  calls-subscribing (e ∷ events) calls = calls-subscribing events calls

events-builder_calls :
    (opts : Opts)
    → event_subscriptions (builder_calls opts)
      ≡ map (λ event. (event, event_config_of opts)) (listed opts.events)
events-builder_calls opts = elim (Bool-cases opts.include_all_blocks) [
  | inl every ↦ rw every (
      events-subscribing (event_config_of opts) opts.call_config (listed opts.events)
        (listed opts.calls))
  | inr some_blocks ↦ rw some_blocks (
      events-subscribing (event_config_of opts) opts.call_config (listed opts.events)
        (listed opts.calls))
]

calls-builder_calls :
    (opts : Opts)
    → call_subscriptions (builder_calls opts)
      ≡ map (λ call. (call, opts.call_config)) (listed opts.calls)
calls-builder_calls opts = elim (Bool-cases opts.include_all_blocks) [
  | inl every ↦ rw every (
      calls-subscribing (event_config_of opts) opts.call_config (listed opts.events)
        (listed opts.calls))
  | inr some_blocks ↦ rw some_blocks (
      calls-subscribing (event_config_of opts) opts.call_config (listed opts.events)
        (listed opts.calls))
]

-- A processor subscribed to exactly the options' names, once the source and the range are set.
abbrev pub Configures : Opts → Option (List BuilderCall) → Type 0
Configures opts none = (listed opts.events ≡ []) × (listed opts.calls ≡ [])
Configures opts (some trace) =
    ((listed opts.events ≢ []) ⊎ (listed opts.calls ≢ []))
    × (event_subscriptions trace
        ≡ map (λ event. (event, event_config_of opts)) (listed opts.events))
    × (call_subscriptions trace ≡ map (λ call. (call, opts.call_config)) (listed opts.calls))
    × ((later : List BuilderCall) × (trace
          ≡ set_data_source opts.config.data_source
            ∷ set_block_range opts.config.block_range
            ∷ later))

has_names_cases :
    (names : Option (List Text))
    → ((has_names names ≡ true) × (listed names ≢ []))
      ⊎ ((has_names names ≡ false) × (listed names ≡ []))
has_names_cases none = inr (refl, refl)
has_names_cases (some []) = inr (refl, refl)
has_names_cases (some (name ∷ names)) = inl (refl, λ e. cc e)

Configures-builder_calls :
    (opts : Opts)
    → (listed opts.events ≢ []) ⊎ (listed opts.calls ≢ [])
    → Configures opts (some (builder_calls opts))
Configures-builder_calls opts h =
    (h, events-builder_calls opts, calls-builder_calls opts, (_, refl))

-- Without an event and a call the factory throws. Else the processor is given the source and the range
-- first, and is subscribed to the events and to the calls of the options, each as often as it is listed
-- and in this order, every event with the selection of the options or, where there is none, the default.
pub create_substrate_processor-Configures :
    (opts : Opts) → Configures opts (create_substrate_processor opts)
unfolding create_substrate_processor
create_substrate_processor-Configures opts = elim (has_names_cases opts.events) [
  | inl (e, some_event) ↦ rw e (Configures-builder_calls opts (inl some_event))
  | inr (e, no_event) ↦ elim (has_names_cases opts.calls) [
    | inl (f, some_call) ↦ rw (e, f) (Configures-builder_calls opts (inr some_call))
    | inr (f, no_call) ↦ rw (e, f) (no_event, no_call)
  ]
]
