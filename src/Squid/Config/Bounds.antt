-- ===== src/Squid/Config/Bounds.antt =====
-- What packages/indexer/squid-common/src/config.ts lets through.
use predictor_common.Prelude.Text.{Text, codes}
use predictor_common.Prelude.Int.{ℤ, pos}
use predictor_common.Prelude.{
  ℕ, ◌≤◌, ◌≡◌, refl, sym, ap, ◌∙◌, Bool, true, Option, none, some, List, Option-cases, inl, inr,
  leb, arith,
}
use predictor_common.Squid.Config.{
  ◌>>=◌, Environment, BaseEnv, ProcessorConfig, nonnegative, at_most, ss58_prefix_max,
  ss58_prefix_env, ensure_valid_block_range, config_of, base_env, parse_processor_env,
  create_ss58_codec, create_default_ss58_codec,
}

-- The inversion of a step that did not throw.
>>=-eq-some {ℓ κ} :
    {A : Type ℓ} {B : Type κ} (m : Option A) (f : A → Option B) {b : B}
    → (m >>= f) ≡ some b
    → (a : A) × (m ≡ some a) × (f a ≡ some b)
>>=-eq-some none f h = absurd (cc h)
>>=-eq-some (some a) f h = (a, refl, h)

at_most-le : (high : ℕ) (o : Option ℕ) {n : ℕ} → at_most high o ≡ some n → n ≤ high
at_most-le high none h = absurd (cc h)
at_most-le high (some m) h = ground arith

ss58_prefix_env-le :
    (integer_of : Text → Option ℤ) (variable : Option Text) {n : ℕ}
    → ss58_prefix_env integer_of variable ≡ some n
    → n ≤ ss58_prefix_max
ss58_prefix_env-le integer_of none h = ground arith
ss58_prefix_env-le integer_of (some s) h = at_most-le ss58_prefix_max (nonnegative (integer_of s)) h

ensure_valid_block_range-le :
    (env : BaseEnv) (to : ℕ)
    → ensure_valid_block_range env ≡ some tt
    → env.block_to ≡ some to
    → env.block_from ≤ to
ensure_valid_block_range-le env to h e = ground arith

base_env-prefix :
    (integer_of : Text → Option ℤ) (is_url : Text → Bool) (process_env : Environment)
    {base : BaseEnv}
    → base_env integer_of is_url process_env ≡ some base
    → ss58_prefix_env integer_of (process_env (codes "SS58_PREFIX")) ≡ some base.ss58_prefix
unfolding base_env
base_env-prefix integer_of is_url process_env h = ground arith

-- The parts of a run that did not throw.
module _ {ℓ} (integer_of : Text → Option ℤ) (is_url : Text → Bool) {E : Type ℓ}
    (extra : Environment → Option ((BaseEnv → BaseEnv) × E)) (process_env : Environment) where
  parsed :
      {env : BaseEnv} {fields : E} {config : ProcessorConfig}
      → parse_processor_env integer_of is_url extra process_env ≡ some (env, fields, config)
      → (base : BaseEnv) × (spread : (BaseEnv → BaseEnv)) × (base_env integer_of is_url process_env
          ≡ some base)
        × (ensure_valid_block_range base ≡ some tt)
        × (extra process_env ≡ some (spread, fields))
        × (env ≡ spread base)
        × (config ≡ config_of env)
  unfolding parse_processor_env
  parsed {env} {fields} {config} h = elim (Option-cases (base_env integer_of is_url process_env)) [
    | inl e ↦ absurd (cc (rw e at h))
    | inr (base, e) ↦ elim (Option-cases (ensure_valid_block_range base)) [
      | inl f ↦ absurd (cc (rw (e, f) at h))
      | inr (done, f) ↦ elim (Option-cases (extra process_env)) [
        | inl g ↦ absurd (cc (rw (e, f, g) at h))
        | inr ((spread, rest), g) ↦
            let same : some (spread base, rest, config_of (spread base))
                ≡ some (env, fields, config) =
              rw (e, f, g) at h in
            let is_env : spread base ≡ env = cc same in
            let is_rest : rest ≡ fields = cc same in
            let is_config : config_of (spread base) ≡ config = cc same in
            (
              base,
              spread,
              e,
              f,
              g ∙ ap (λ x. some (spread, x)) is_rest,
              sym is_env,
              sym is_config ∙ ap config_of is_env,
            )
      ]
    ]
  ]

-- Where the extra schema has none of the base's fields and nothing throws: the environment is the one
-- that the base schema reads, its prefix is at most 16383, its range does not end before it
-- starts, and the processor is given its endpoints and its range.
pub parse_processor_env-bounds {ℓ} :
    (integer_of : Text → Option ℤ) (is_url : Text → Bool) {E : Type ℓ}
    (extra : Environment → Option ((BaseEnv → BaseEnv) × E)) (process_env : Environment)
    (env : BaseEnv) (fields : E) (config : ProcessorConfig)
    → ((spread : (BaseEnv → BaseEnv)) (rest : E)
        → extra process_env ≡ some (spread, rest)
        → (base : BaseEnv) → spread base ≡ base)
    → parse_processor_env integer_of is_url extra process_env ≡ some (env, fields, config)
    → (env.ss58_prefix ≤ 16383)
      × ((to : ℕ) → env.block_to ≡ some to → env.block_from ≤ to)
      × (base_env integer_of is_url process_env ≡ some env)
      × (config ≡ config_of env)
parse_processor_env-bounds integer_of is_url extra process_env env fields config keeps h =
    let (base, spread, e, f, g, is_env, is_config) = parsed integer_of is_url extra process_env h in
    let same : env ≡ base = is_env ∙ keeps spread fields g base in
    (
      rw same (
          ss58_prefix_env-le integer_of (process_env (codes "SS58_PREFIX"))
            (base_env-prefix integer_of is_url process_env e)),
      rw same (λ to. ensure_valid_block_range-le base to f),
      e ∙ ap (λ b. some b) (sym same),
      is_config,
    )

create_ss58_codec_lem :
    (encode : ℕ → List ℕ → Text) (decode : Text → Option (List ℕ)) (prefix : ℕ)
    → prefix ≤ ss58_prefix_max
    → create_ss58_codec encode decode (pos prefix)
      ≡ some (record { prefix = prefix; encode_address = encode prefix; decode_address = decode })
unfolding create_ss58_codec
create_ss58_codec_lem encode decode prefix h =
    let fits : leb prefix ss58_prefix_max ≡ true = ground arith in rw fits refl

-- Where the extra schema has none of the base's fields: an environment that a processor accepts gives a
-- default codec, which has the processor's own prefix.
pub default_codec-agrees {ℓ} :
    (integer_of : Text → Option ℤ) (is_url : Text → Bool) {E : Type ℓ}
    (extra : Environment → Option ((BaseEnv → BaseEnv) × E)) (process_env : Environment)
    (encode : ℕ → List ℕ → Text) (decode : Text → Option (List ℕ)) (env : BaseEnv) (fields : E)
    (config : ProcessorConfig)
    → ((spread : (BaseEnv → BaseEnv)) (rest : E)
        → extra process_env ≡ some (spread, rest)
        → (base : BaseEnv) → spread base ≡ base)
    → parse_processor_env integer_of is_url extra process_env ≡ some (env, fields, config)
    → create_default_ss58_codec encode decode integer_of process_env
      ≡ some (record {
        prefix = env.ss58_prefix;
        encode_address = encode env.ss58_prefix;
        decode_address = decode;
      })
unfolding create_default_ss58_codec
default_codec-agrees integer_of is_url extra process_env encode decode env fields config keeps h =
    let (small, _, is, _) =
      parse_processor_env-bounds integer_of is_url extra process_env env fields config keeps h in
    rw (base_env-prefix integer_of is_url process_env is)
      (create_ss58_codec_lem encode decode env.ss58_prefix small)
