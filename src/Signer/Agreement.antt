-- ===== src/Signer/Agreement.antt =====
-- That signing and address derivation read a secret URI alike, and leave no seed behind, in
-- packages/chain/substrate-signer/src/index.ts.
use predictor_common.Prelude.Text.{Text, trim}
use predictor_common.Scale.{Bytes}
use predictor_common.Prelude.{
  ℕ, zero, suc, ◌≡◌, refl, ap, ◌∙◌, Option, none, some, length, replicate, All,
}
use predictor_common.Signer.{
  Sr25519, branded, bad_derivation, invalid_address, prd_ss58_prefix, Result, ok, throws, ◌>>=◌,
  or_throw, Suri, Keypair, with_seed, parse_suri, parse_ss58, assert_ss58, wrap, derive_key,
  keypair_of, derive_keypair, address_of, address_from_suri,
}

-- A derived key has 32 bytes, and the codec reads the address of such a key back and writes it with no
-- space about it.
pub record CodecLaws (sr : Sr25519) : Type 0 where
  pub key_size :
      (seed : Bytes) (path : Text) (key : Bytes) → sr.derive seed path ≡ some key → length key ≡ 32
  pub address_read :
      (key : Bytes)
      → length key ≡ 32
      → sr.address_info (sr.ss58_address key prd_ss58_prefix) ≡ some key
  pub address_trim :
      (key : Bytes)
      → length key ≡ 32
      → trim (sr.ss58_address key prd_ss58_prefix) ≡ sr.ss58_address key prd_ss58_prefix

abbrev pub IsWiped : Bytes → Type 0
IsWiped seed = All (λ b. b ≡ 0) seed

abbrev pub address_result : Result Keypair → Result Text
address_result (ok key) = ok key.address
address_result (throws e) = throws e

replicate-IsWiped : (n : ℕ) → IsWiped (replicate n 0)
replicate-IsWiped zero = tt
replicate-IsWiped (suc n) = (refl, replicate-IsWiped n)

module _ (sr : Sr25519) (laws : CodecLaws sr) where
  pub parse_ss58-ss58_address :
      (key : Bytes)
      → length key ≡ 32
      → parse_ss58 sr (sr.ss58_address key prd_ss58_prefix)
        ≡ some (sr.ss58_address key prd_ss58_prefix)
  unfolding parse_ss58
  parse_ss58-ss58_address key size =
      (λ i. branded (laws.address_trim key size i) (sr.address_info (laws.address_trim key size i)))
      ∙ ap (branded (sr.ss58_address key prd_ss58_prefix)) (laws.address_read key size)

  address-wrap :
      (key : Bytes)
      → length key ≡ 32
      → address_result (wrap sr key) ≡ ok (sr.ss58_address key prd_ss58_prefix)
  unfolding wrap assert_ss58
  address-wrap key size =
      ap
        (λ o. address_result (
          or_throw (invalid_address (sr.ss58_address key prd_ss58_prefix)) o >>= λ address.
          ok (record { public_key = key; address = address })))
        (parse_ss58-ss58_address key size)

  address-or_throw :
      (o : Option Bytes)
      → ((key : Bytes) → o ≡ some key → length key ≡ 32)
      → address_result (or_throw bad_derivation o >>= wrap sr)
        ≡ (or_throw bad_derivation o >>= λ key. ok (sr.ss58_address key prd_ss58_prefix))
  address-or_throw none size = refl
  address-or_throw (some key) size = address-wrap key (size key refl)

  address-derive_key :
      (path : Text) (seed : Bytes)
      → address_result (derive_key sr path seed >>= wrap sr)
        ≡ (derive_key sr path seed >>= λ key. ok (sr.ss58_address key prd_ss58_prefix))
  address-derive_key path seed = address-or_throw (sr.derive seed path) (laws.key_size seed path)

  address-keypair_of :
      (suri : Result Suri)
      → address_result (keypair_of sr suri).result ≡ (address_of sr suri).result
  unfolding with_seed
  address-keypair_of (ok suri) = address-derive_key suri.path suri.mini_secret
  address-keypair_of (throws e) = refl

module _ (sr : Sr25519) where
  keypair_of-IsWiped : (suri : Result Suri) → All IsWiped (keypair_of sr suri).seeds
  unfolding with_seed
  keypair_of-IsWiped (ok suri) = (replicate-IsWiped (length suri.mini_secret), tt)
  keypair_of-IsWiped (throws e) = tt

  address_of-IsWiped : (suri : Result Suri) → All IsWiped (address_of sr suri).seeds
  unfolding with_seed
  address_of-IsWiped (ok suri) = (replicate-IsWiped (length suri.mini_secret), tt)
  address_of-IsWiped (throws e) = tt

-- Over a derivation whose keys have 32 bytes and a codec that reads their addresses back: for every secret, `addressFromSuri` returns the
-- address of the keypair that `deriveKeypair` returns, or throws the same error where it throws; and
-- every seed buffer that either made is all zeros, also after an error.
pub derive_keypair_agreement :
    (sr : Sr25519)
    → CodecLaws sr
    → (secret : Text)
    → (address_result (derive_keypair sr secret).result ≡ (address_from_suri sr secret).result)
      × All IsWiped (derive_keypair sr secret).seeds
      × All IsWiped (address_from_suri sr secret).seeds
unfolding derive_keypair address_from_suri
derive_keypair_agreement sr laws secret = (
  address-keypair_of sr laws (parse_suri sr secret),
  keypair_of-IsWiped sr (parse_suri sr secret),
  address_of-IsWiped sr (parse_suri sr secret),
)
