-- ===== src/Ui/Address.antt =====
-- packages/web/ui/src/address.ts. The codecs of @polkadot/util and @polkadot/util-crypto are
-- parameters; `none` is a call that throws.
pub mod Canonical
use predictor_common.Prelude.Text.{Text, text_eq}
use predictor_common.Prelude.{
  ℕ, Bool, true, false, ◌&&◌, ◌==◌, Option, none, some, List, length, if◌then◌else◌,
}

pub record AddressCodec : Type 0 where
  pub is_hex : Text → Bool
  pub hex_to_u8a : Text → List ℕ
  pub u8a_to_hex : List ℕ → Text
  pub ss58_decode : Text → Option (List ℕ)
  pub ss58_encode : List ℕ → ℕ → Option Text
  pub ethereum_encode : List ℕ → Option Text
  pub checksum : Text → Text
  pub is_address : Text → Bool
  pub is_ethereum_address : Text → Bool

infixl 5 ◌>>=◌
abbrev pub ◌>>=◌ {ℓ κ} : {A : Type ℓ} {B : Type κ} → Option A → (A → Option B) → Option B
none >>= f = none
some a >>= f = f a

abbrev pub or_input : Text → Option Text → Text
or_input address none = address
or_input address (some result) = result

module _ (codec : AddressCodec) where
  unfoldable pub decode_address : Text → Text
  decode_address address =
      or_input address (do bytes ← codec.ss58_decode address; some (codec.u8a_to_hex bytes))

  abbrev pub bytes_of : Text → Option (List ℕ)
  bytes_of address =
      if codec.is_hex address then some (codec.hex_to_u8a address) else codec.ss58_decode address

  abbrev pub encode_bytes : ℕ → List ℕ → Option Text
  encode_bytes prefix bytes =
      if length bytes == 20 then codec.ethereum_encode bytes else codec.ss58_encode bytes prefix

  unfoldable pub encode_address : Text → ℕ → Text
  encode_address address prefix =
      or_input address (do bytes ← bytes_of address; encode_bytes prefix bytes)

  unfoldable pub is_encoded_address : Text → ℕ → Bool
  unfolding encode_address
  is_encoded_address address prefix =
      codec.is_address address && text_eq address (encode_address address prefix)

  abbrev pub is_account_public_key : Text → Bool
  is_account_public_key str = codec.is_hex str && codec.is_address str

  -- `checksum` is `ethereumEncode` of a text that `isEthereumAddress` accepts.
  abbrev pub normalise_eth_address : Text → Option Text
  normalise_eth_address address =
      if codec.is_ethereum_address address then some (codec.checksum address) else none
