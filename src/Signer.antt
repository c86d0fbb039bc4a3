-- ===== src/Signer.antt =====
-- packages/chain/substrate-signer/src/index.ts, with `parseSs58` and `assertSs58` of
-- packages/chain/substrate-primitives/src/index.ts. The key derivation, the mnemonics and the SS58
-- codec are third-party code, given by an interface; a seed is a buffer that `withSeed` overwrites.
pub mod Agreement
pub mod Accounts
pub mod Recovery
use predictor_common.Prelude.Text.{Text, codes, trim, includes, index_of, starts_with}
use predictor_common.Prelude.Int.{ℤ, pos, negsuc}
use predictor_common.Scale.{Bytes, to_hex, from_hex}
use predictor_common.Prelude.{
  ℕ, ◌+◌, Bool, true, false, ◌&&◌, ◌||◌, ◌==◌, Option, none, some, List, [], ◌∷◌, map, length, take,
  drop, replicate, all, leb, if◌then◌else◌,
}

-- `entropyToMiniSecret(mnemonicToEntropy(phrase))`, the public key of `sr25519CreateDerive(seed)(path)`,
-- `ss58Address` and `getSs58AddressInfo`, where `none` is an exception or an invalid address.
pub record Sr25519 : Type 0 where
  pub dev_phrase : Text
  pub mini_secret_of : Text → Option Bytes
  pub derive : Bytes → Text → Option Bytes
  pub ss58_address : Bytes → ℕ → Text
  pub address_info : Text → Option Bytes

abbrev pub prd_ss58_prefix : ℕ
prd_ss58_prefix = 42

pub data SignerError : Type 0 where
  password_form odd_hex bad_mnemonic bad_derivation : SignerError
  invalid_address : Text → SignerError

pub data Result {ℓ} (A : Type ℓ) : Type ℓ where
  ok : A → Result A
  throws : SignerError → Result A

infixl 5 ◌>>=◌
abbrev pub ◌>>=◌ {ℓ κ} : {A : Type ℓ} {B : Type κ} → Result A → (A → Result B) → Result B
ok a >>= f = f a
throws e >>= f = throws e

abbrev pub or_throw {ℓ} : {A : Type ℓ} → SignerError → Option A → Result A
or_throw e none = throws e
or_throw e (some a) = ok a

pub record Suri : Type 0 where
  pub mini_secret : Bytes
  pub path : Text

pub record NewAccount : Type 0 where
  pub seed : Text
  pub new_address : Text
  pub new_public_key : Text

pub record Keypair : Type 0 where
  pub public_key : Bytes
  pub address : Text

abbrev pub is_hex_digit : ℕ → Bool
is_hex_digit c =
    (leb b'0' c && leb c b'9') || (leb b'a' c && leb c b'f') || (leb b'A' c && leb c b'F')

-- `/^0x[0-9a-fA-F]{64}$/.test(s)`.
abbrev pub is_32_byte_hex : Text → Bool
is_32_byte_hex s = starts_with s (codes "0x") && (length s == 66 && all is_hex_digit (drop 2 s))

abbrev pub is_account_pk : Text → Bool
is_account_pk account = is_32_byte_hex (trim account)

abbrev pub before_slash : Text → Option ℕ → Text
before_slash s none = s
before_slash s (some slash) = take slash s

abbrev pub from_slash : Text → Option ℕ → Text
from_slash s none = []
from_slash s (some slash) = drop slash s

-- A buffer and what a call that was given it came to.
pub record Wiped {ℓ} (A : Type ℓ) : Type ℓ where
  pub result : Result A
  pub seeds : List Bytes

abbrev pub wiped_throw {ℓ} : {A : Type ℓ} → SignerError → Wiped A
wiped_throw e = record { result = throws e; seeds = [] }

-- `withSeed`: whatever `use_seed` returns or throws, and does to the buffer, it is filled with zeros.
unfoldable pub with_seed {ℓ} : {A : Type ℓ} → Bytes → (Bytes → Result A × Bytes) → Wiped A
with_seed seed use_seed =
    let (result, buffer) = use_seed seed in
    record { result = result; seeds = replicate (length buffer) 0 ∷ [] }

abbrev pub branded : Text → Option Bytes → Option Text
branded address none = none
branded address (some public_key) = some address

-- `none` is the RangeError.
unfoldable pub as_planck : ℤ → Option ℤ
as_planck (pos n) = some (pos n)
as_planck (negsuc n) = none

module _ (sr : Sr25519) where
  abbrev pub phrase_of : Text → Text
  phrase_of [] = sr.dev_phrase
  phrase_of (c ∷ phrase) = c ∷ phrase

  unfoldable pub parse_suri : Text → Result Suri
  parse_suri secret =
      let trimmed = trim secret in
      let slash = index_of trimmed b'/' in
      if is_32_byte_hex trimmed
      then (or_throw odd_hex (from_hex trimmed) >>= λ seed.
          ok (record { mini_secret = seed; path = [] }))
      else if includes trimmed (codes "///")
      then throws password_form
      else (or_throw bad_mnemonic
            (sr.mini_secret_of (phrase_of (trim (before_slash trimmed slash))))
          >>= λ seed. ok (record { mini_secret = seed; path = from_slash trimmed slash }))

  unfoldable pub parse_ss58 : Text → Option Text
  parse_ss58 input = branded (trim input) (sr.address_info (trim input))

  unfoldable pub assert_ss58 : Text → Result Text
  assert_ss58 input = or_throw (invalid_address input) (parse_ss58 input)

  unfoldable pub wrap : Bytes → Result Keypair
  wrap public_key = assert_ss58 (sr.ss58_address public_key prd_ss58_prefix) >>= λ address.
      ok (record { public_key = public_key; address = address })

  abbrev pub derive_key : Text → Bytes → Result Bytes
  derive_key path seed = or_throw bad_derivation (sr.derive seed path)

  abbrev pub keypair_of : Result Suri → Wiped Keypair
  keypair_of (throws e) = wiped_throw e
  keypair_of (ok suri) =
      with_seed suri.mini_secret (λ seed. (derive_key suri.path seed >>= wrap, seed))

  unfoldable pub derive_keypair : Text → Wiped Keypair
  derive_keypair secret = keypair_of (parse_suri secret)

  unfoldable pub derive_dev : Text → Wiped Keypair
  derive_dev path = elim (sr.mini_secret_of sr.dev_phrase) [
    | none ↦ wiped_throw bad_mnemonic
    | some seed ↦ keypair_of (ok (record { mini_secret = seed; path = path }))
  ]

  abbrev pub new_account_of : Text → Bytes → NewAccount
  new_account_of seed key = record {
    seed = seed;
    new_address = sr.ss58_address key prd_ss58_prefix;
    new_public_key = to_hex key;
  }

  -- Over the random bytes that are drawn.
  unfoldable pub generate_new_account : Bytes → Wiped NewAccount
  generate_new_account random =
      with_seed random
        (λ seed. (derive_key [] seed >>= λ key. ok (new_account_of (to_hex seed) key), seed))

  abbrev pub address_of : Result Suri → Wiped Text
  address_of (throws e) = wiped_throw e
  address_of (ok suri) = with_seed suri.mini_secret (λ seed.
      (derive_key suri.path seed >>= λ key. ok (sr.ss58_address key prd_ss58_prefix), seed))

  unfoldable pub address_from_suri : Text → Wiped Text
  address_from_suri suri = address_of (parse_suri suri)

  unfoldable pub address_to_public_key_bytes : Text → Result Bytes
  address_to_public_key_bytes address = or_throw (invalid_address address) (sr.address_info address)

  unfoldable pub address_to_public_key : Text → Result Text
  address_to_public_key address = address_to_public_key_bytes address >>= λ key. ok (to_hex key)

  unfoldable pub public_key_to_address : Text → Result Text
  public_key_to_address public_key =
      or_throw odd_hex (from_hex public_key) >>= λ key. ok (sr.ss58_address key prd_ss58_prefix)

  unfoldable pub convert_to_public_key_if_needed : Text → Result Text
  convert_to_public_key_if_needed account =
      if is_account_pk account then ok (trim account) else address_to_public_key account

  unfoldable pub convert_to_address : Text → Result Text
  convert_to_address account =
      if is_account_pk account then public_key_to_address account else ok account

  unfoldable pub convert_to_public_key_bytes : Text → Result Bytes
  convert_to_public_key_bytes account =
      if is_account_pk account
      then or_throw odd_hex (from_hex (trim account))
      else address_to_public_key_bytes account
