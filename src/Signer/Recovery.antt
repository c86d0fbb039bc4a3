-- ===== src/Signer/Recovery.antt =====
-- That `generateNewAccount` of packages/chain/substrate-signer/src/index.ts hands out a seed that the
-- account can be derived from again.
use predictor_common.Prelude.Text.{Text}
use predictor_common.Scale.{Bytes, to_hex}
use predictor_common.Scale.LittleEndian.{IsByte}
use predictor_common.Scale.Hex.{from_hex-to_hex}
use predictor_common.Prelude.{◌≡◌, refl, ap, ◌∙◌, Option, none, some, [], length, All}
use predictor_common.Signer.{
  Sr25519, bad_derivation, Result, ok, throws, ◌>>=◌, or_throw, Keypair, NewAccount, with_seed,
  parse_suri, wrap, assert_ss58, keypair_of, derive_keypair, new_account_of, generate_new_account,
  prd_ss58_prefix, invalid_address,
}
use predictor_common.Signer.Agreement.{CodecLaws, parse_ss58-ss58_address}
use predictor_common.Signer.Accounts.{trim-to_hex, is_32_byte_hex-to_hex}

-- The account that a derived keypair is, with the seed it came from.
abbrev pub account_result : Text → Result Keypair → Result NewAccount
account_result seed (ok key) =
    ok (record { seed = seed; new_address = key.address; new_public_key = to_hex key.public_key })
account_result seed (throws e) = throws e

parse_suri-to_hex :
    (sr : Sr25519) (seed : Bytes)
    → All IsByte seed
    → length seed ≡ 32
    → parse_suri sr (to_hex seed) ≡ ok (record { mini_secret = seed; path = [] })
unfolding parse_suri
parse_suri-to_hex sr seed bytes size =
    simp (trim-to_hex seed bytes)
      (simp (is_32_byte_hex-to_hex seed bytes size, from_hex-to_hex seed bytes))

module _ (sr : Sr25519) (laws : CodecLaws sr) where
  account-wrap :
      (seed : Text) (key : Bytes)
      → length key ≡ 32
      → account_result seed (wrap sr key) ≡ ok (new_account_of sr seed key)
  unfolding wrap assert_ss58
  account-wrap seed key size =
      ap
        (λ o. account_result seed (
          or_throw (invalid_address (sr.ss58_address key prd_ss58_prefix)) o >>= λ address.
          ok (record { public_key = key; address = address })))
        (parse_ss58-ss58_address sr laws key size)

  account-or_throw :
      (seed : Text) (o : Option Bytes)
      → ((key : Bytes) → o ≡ some key → length key ≡ 32)
      → account_result seed (or_throw bad_derivation o >>= wrap sr)
        ≡ (or_throw bad_derivation o >>= λ key. ok (new_account_of sr seed key))
  account-or_throw seed none size = refl
  account-or_throw seed (some key) size = account-wrap seed key (size key refl)

-- Over a derivation whose keys have 32 bytes and a codec that reads their addresses back: whatever
-- 32 bytes are drawn, the seed that `generateNewAccount` returns is in hexadecimal a secret from
-- which `deriveKeypair` derives the address and public key that it returned with it, or throws where it threw.
pub derive_keypair-generate_new_account :
    (sr : Sr25519)
    → CodecLaws sr
    → (random : Bytes) → All IsByte random
    → length random ≡ 32
    → account_result (to_hex random) (derive_keypair sr (to_hex random)).result
      ≡ (generate_new_account sr random).result
unfolding derive_keypair generate_new_account with_seed
derive_keypair-generate_new_account sr laws random bytes size =
    ap (λ suri. account_result (to_hex random) (keypair_of sr suri).result)
      (parse_suri-to_hex sr random bytes size)
    ∙ account-or_throw sr laws (to_hex random) (sr.derive random []) (laws.key_size random [])
