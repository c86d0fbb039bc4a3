-- ===== src/Squid/Processor.antt =====
-- packages/indexer/squid-common/src/processor.ts: the calls of Subsquid's builder that configure a
-- processor, in their order.
pub mod Subscriptions
use predictor_common.Prelude.Text.{Text, codes}
use predictor_common.Prelude.{
  Bool, true, false, Option, none, some, List, [], ◌∷◌, ◌++◌, map, if◌then◌else◌,
}
use predictor_common.Squid.Config.{DataSource, BlockRange, ProcessorConfig}

-- A data selection: `true`, or an object of selections.
mutual
  pub data Selection : Type 0 where
    whole : Selection
    part : Fields → Selection

  pub data Fields : Type 0 where
    done : Fields
    field : Text → Selection → Fields → Fields

abbrev pub default_event_config : Selection
default_event_config = part (
    field (codes "data")
      (part (
        field (codes "event")
          (part (
            field (codes "args") whole (
              field (codes "indexInBlock") whole (
                field (codes "extrinsic")
                  (part (
                    field (codes "signature") whole
                      (field (codes "hash") whole (field (codes "indexInBlock") whole done))))
                  (field (codes "call")
                    (part (field (codes "origin") whole (field (codes "args") whole done)))
                    done)))))
          done))
      done)

pub record Opts : Type 0 where
  pub config : ProcessorConfig
  pub events : Option (List Text)
  pub calls : Option (List Text)
  pub event_config : Option Selection
  pub call_config : Option Selection
  pub include_all_blocks : Bool

pub data BuilderCall : Type 0 where
  set_data_source : DataSource → BuilderCall
  set_block_range : BlockRange → BuilderCall
  include_all : BuilderCall
  add_event : Text → Selection → BuilderCall
  add_call : Text → Option Selection → BuilderCall

-- `names ?? []`.
abbrev pub listed : Option (List Text) → List Text
listed none = []
listed (some names) = names

-- `names?.length`, as a condition.
abbrev pub has_names : Option (List Text) → Bool
has_names none = false
has_names (some []) = false
has_names (some (name ∷ names)) = true

abbrev pub event_config_of : Opts → Selection
event_config_of opts = elim opts.event_config [ none ↦ default_event_config | some config ↦ config ]

abbrev pub builder_calls : Opts → List BuilderCall
builder_calls opts =
    set_data_source opts.config.data_source
    ∷ set_block_range opts.config.block_range
    ∷ ((if opts.include_all_blocks then include_all ∷ [] else [])
        ++ (map (λ event. add_event event (event_config_of opts)) (listed opts.events)
            ++ map (λ call. add_call call opts.call_config) (listed opts.calls)))

-- `none` where it throws.
unfoldable pub create_substrate_processor : Opts → Option (List BuilderCall)
create_substrate_processor opts =
    if has_names opts.events
    then some (builder_calls opts)
    else if has_names opts.calls
    then some (builder_calls opts)
    else none
