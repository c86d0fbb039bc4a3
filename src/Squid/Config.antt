-- ===== src/Squid/Config.antt =====
-- packages/indexer/squid-common/src/config.ts and codec.ts: the environment of a processor. Zod's
-- `coerce.number().int()` is given as the integer of a text, `z.url()` as a test; `none` is a throw.
pub mod Bounds
use predictor_common.Prelude.Text.{Text, codes}
use predictor_common.Prelude.Int.{ℤ, pos, negsuc}
use predictor_common.Prelude.{
  ℕ, Bool, true, false, Option, none, some, List, [], leb, ltb, if◌then◌else◌,
}

infixl 5 ◌>>=◌ ◌>>◌
abbrev pub ◌>>=◌ {ℓ κ} : {A : Type ℓ} {B : Type κ} → Option A → (A → Option B) → Option B
none >>= f = none
some a >>= f = f a

abbrev pub ◌>>◌ {ℓ} : {B : Type ℓ} → Option (Unit {0}) → Option B → Option B
m >> k = m >>= λ _. k

-- `process.env`, as it is once dotenv has read its file.
abbrev pub Environment : Type 0
Environment = Text → Option Text

pub record BaseEnv : Type 0 where
  pub rpc_endpoint : Text
  pub archive_url : Text
  pub block_from : ℕ
  pub block_to : Option ℕ
  pub ss58_prefix : ℕ

pub record DataSource : Type 0 where
  pub chain : Text
  pub archive : Text

pub record BlockRange : Type 0 where
  pub from : ℕ
  pub to : Option ℕ

pub record ProcessorConfig : Type 0 where
  pub data_source : DataSource
  pub block_range : BlockRange

abbrev pub or_default {ℓ} : {A : Type ℓ} → A → (Text → Option A) → Option Text → Option A
or_default fallback read none = some fallback
or_default fallback read (some s) = read s

abbrev pub optional {ℓ} : {A : Type ℓ} → (Text → Option A) → Option Text → Option (Option A)
optional read none = some none
optional read (some s) = do a ← read s; some (some a)

abbrev pub nonnegative : Option ℤ → Option ℕ
nonnegative none = none
nonnegative (some (negsuc n)) = none
nonnegative (some (pos n)) = some n

abbrev pub at_most : ℕ → Option ℕ → Option ℕ
at_most high none = none
at_most high (some n) = if leb n high then some n else none

abbrev pub ss58_prefix_max : ℕ
ss58_prefix_max = 16383

-- `assertSs58Prefix` of packages/indexer/squid-common/src/primitives.ts.
abbrev pub assert_ss58_prefix : ℤ → Option ℕ
assert_ss58_prefix prefix = at_most ss58_prefix_max (nonnegative (some prefix))

abbrev pub ensure_valid_block_range : BaseEnv → Option (Unit {0})
ensure_valid_block_range env = elim env.block_to [
  | none ↦ some tt
  | some to ↦ if ltb to env.block_from then none else some tt
]

abbrev pub config_of : BaseEnv → ProcessorConfig
config_of env = record {
  data_source = record { chain = env.rpc_endpoint; archive = env.archive_url };
  block_range = record { from = env.block_from; to = env.block_to };
}

-- `Ss58PrefixEnvSchema`.
abbrev pub ss58_prefix_env : (Text → Option ℤ) → Option Text → Option ℕ
ss58_prefix_env integer_of =
    or_default 42 (λ s. at_most ss58_prefix_max (nonnegative (integer_of s)))

module _ (integer_of : Text → Option ℤ) (is_url : Text → Bool) where
  unfoldable pub base_env : Environment → Option BaseEnv
  base_env env = do
    rpc ← or_default [] (λ s. some s) (env (codes "RPC_ENDPOINT"))
    archive ←
        or_default (codes "http://localhost:8888/graphql") (λ s. if is_url s then some s else none)
          (env (codes "ARCHIVE_URL"))
    from ← or_default 0 (λ s. nonnegative (integer_of s)) (env (codes "BLOCK_FROM"))
    to ← optional (λ s. nonnegative (integer_of s)) (env (codes "BLOCK_TO"))
    prefix ← ss58_prefix_env integer_of (env (codes "SS58_PREFIX"))
    some (record {
      rpc_endpoint = rpc;
      archive_url = archive;
      block_from = from;
      block_to = to;
      ss58_prefix = prefix;
    })

  -- `extra` is the second schema's `parse`, which gives the fields to spread over the base's and the rest.
  module _ {ℓ} {E : Type ℓ} (extra : Environment → Option ((BaseEnv → BaseEnv) × E)) where
    unfoldable pub parse_processor_env : Environment → Option (BaseEnv × E × ProcessorConfig)
    unfolding base_env
    parse_processor_env process_env = do
      base ← base_env process_env
      ensure_valid_block_range base
      (spread, fields) ← extra process_env
      let env = spread base
      some (env, fields, config_of env)

-- The codec of @subsquid/ss58 for a prefix, and its `decode`, are given.
pub record Ss58Codec : Type 0 where
  pub prefix : ℕ
  pub encode_address : List ℕ → Text
  pub decode_address : Text → Option (List ℕ)

module _ (encode : ℕ → List ℕ → Text) (decode : Text → Option (List ℕ)) where
  unfoldable pub create_ss58_codec : ℤ → Option Ss58Codec
  create_ss58_codec prefix = do
    validated ← assert_ss58_prefix prefix
    some (record { prefix = validated; encode_address = encode validated; decode_address = decode })

  unfoldable pub create_default_ss58_codec : (Text → Option ℤ) → Environment → Option Ss58Codec
  unfolding create_ss58_codec
  create_default_ss58_codec integer_of process_env = do
    prefix ← ss58_prefix_env integer_of (process_env (codes "SS58_PREFIX"))
    create_ss58_codec (pos prefix)
