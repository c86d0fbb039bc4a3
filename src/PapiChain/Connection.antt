-- ===== src/PapiChain/Connection.antt =====
-- The lifetime of a connection in packages/chain/papi-chain/src/index.ts: `client`, the two provider
-- builders, the status callback, `disconnect` and the typed api of `Chain`. A client, a provider and
-- a light-client instance are named by numbers, given out in order.
pub mod Reach
use predictor_common.Prelude.{
  ℕ, suc, ◌+◌, Bool, true, false, Option, none, some, List, [], ◌∷◌, ◌==◌, if◌then◌else◌,
}

-- `endpoint` in the options, with or without an `onStatusChanged`, or `smoldot`.
pub data Transport : Type 0 where
  ws : (forwards : Bool) → Transport
  smoldot : Transport

-- The private fields, and what the class has done to the world: the clients that it made and
-- destroyed, the light clients that it ended, the generations that its status callbacks hold, and
-- the statuses that it passed on.
pub record ChainBase : Type 0 where
  pub last_status : Option ℕ
  pub client : Option ℕ
  pub light_client : Option ℕ
  pub generation : ℕ
  pub api : Option ℕ
  pub made : ℕ
  pub created : List ℕ
  pub destroyed : List ℕ
  pub started : List ℕ
  pub terminated : List ℕ
  pub callbacks : List ℕ
  pub forwarded : List ℕ

abbrev pub fresh : ChainBase
fresh = record {
  last_status = none;
  client = none;
  light_client = none;
  generation = 0;
  api = none;
  made = 0;
  created = [];
  destroyed = [];
  started = [];
  terminated = [];
  callbacks = [];
  forwarded = [];
}

-- `++this.#generation`, captured by the callback.
abbrev pub ws_provider : ChainBase → ChainBase
ws_provider c = record c {
  generation = c.generation + 1;
  callbacks = (c.generation + 1) ∷ c.callbacks;
}

abbrev pub smoldot_provider : ChainBase → ChainBase
smoldot_provider c = record c { light_client = some c.made; started = c.made ∷ c.started }

abbrev pub provider : Transport → ChainBase → ChainBase
provider (ws forwards) c = ws_provider c
provider smoldot c = smoldot_provider c

-- `createClient(provider)`.
abbrev pub create_client : ChainBase → ChainBase
create_client c = record c { client = some c.made; created = c.made ∷ c.created; made = c.made + 1 }

unfoldable pub connect : Transport → ChainBase → ChainBase
connect t c = elim c.client [ some live ↦ c | none ↦ create_client (provider t c) ]

-- The `onStatusChanged` of the provider that captured `generation`.
unfoldable pub on_status_changed : Transport → ℕ → ℕ → ChainBase → ChainBase
on_status_changed t generation status c =
    if generation == c.generation
    then elim t [
      | ws forwards ↦ record c {
        last_status = some status;
        forwarded = if forwards then status ∷ c.forwarded else c.forwarded;
      }
      | smoldot ↦ record c { last_status = some status }
    ]
    else c

abbrev pub put_if : Option ℕ → List ℕ → List ℕ
put_if none l = l
put_if (some n) l = n ∷ l

-- `ChainBase.disconnect`.
unfoldable pub disconnect_base : ChainBase → ChainBase
disconnect_base c = record c {
  generation = c.generation + 1;
  destroyed = put_if c.client c.destroyed;
  client = none;
  last_status = none;
  terminated = put_if c.light_client c.terminated;
  light_client = none;
}

-- `Chain.disconnect`.
unfoldable pub disconnect : ChainBase → ChainBase
unfolding disconnect_base
disconnect c = disconnect_base (record c { api = none })

-- `Chain.api`: the typed api of the client that is cached, or made, now.
unfoldable pub typed_api : Transport → ChainBase → ChainBase
unfolding connect
typed_api t c = elim c.api [
  | some a ↦ c
  | none ↦ let c' = connect t c in record c' { api = c'.client }
]

-- `none` is `undefined`.
unfoldable pub status : ChainBase → Option ℕ
status c = c.last_status
