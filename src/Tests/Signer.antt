-- ===== src/Tests/Signer.antt =====
-- Runs of packages/chain/substrate-signer, over a codec that spells each byte as so many letters.
use predictor_common.Prelude.Text.{Text, codes}
use predictor_common.Prelude.Trim.{IsSolid, trim-IsSolid}
use predictor_common.Scale.{Bytes, to_hex}
use predictor_common.Prelude.{
  ℕ, zero, suc, ◌+◌, ◌≡◌, refl, sym, ap, ◌∙◌, true, false, ◌==◌, length, Option, none, some, [],
  ◌∷◌, ◌++◌, replicate, All, All-append, arith,
}
use predictor_common.Signer.{
  Sr25519, ok, throws, password_form, parse_suri, address_from_suri, derive_keypair,
  generate_new_account,
}
use predictor_common.Signer.Agreement.{CodecLaws, IsWiped, address_result, derive_keypair_agreement}
use predictor_common.Signer.Recovery.{account_result, derive_keypair-generate_new_account}

abbrev spell : Bytes → Text
spell [] = []
spell (b ∷ bytes) = replicate b b'a' ++ (b'b' ∷ spell bytes)

abbrev cons_byte : ℕ → Option Bytes → Option Bytes
cons_byte b none = none
cons_byte b (some bytes) = some (b ∷ bytes)

abbrev unspell : ℕ → Text → Option Bytes
unspell n [] = some []
unspell n (c ∷ s) = elim (c == b'a') [
  | true ↦ unspell (suc n) s
  | false ↦ cons_byte n (unspell 0 s)
]

unspell-replicate :
    (n b : ℕ) (s : Text)
    → unspell n (replicate b b'a' ++ (b'b' ∷ s)) ≡ cons_byte (n + b) (unspell 0 s)
unspell-replicate n zero s = ap (λ m. cons_byte m (unspell 0 s)) (omega arith)
unspell-replicate n (suc b) s =
    unspell-replicate (suc n) b s ∙ ap (λ m. cons_byte m (unspell 0 s)) (omega arith)

unspell-spell : (bytes : Bytes) → unspell 0 (spell bytes) ≡ some bytes
unspell-spell [] = refl
unspell-spell (b ∷ bytes) =
    unspell-replicate 0 b (spell bytes)
    ∙ ap (cons_byte (0 + b)) (unspell-spell bytes)
    ∙ ap (λ m. cons_byte m (some bytes)) (omega arith)

letters-IsSolid : (b : ℕ) → IsSolid (replicate b b'a')
letters-IsSolid zero = tt
letters-IsSolid (suc b) = (refl, letters-IsSolid b)

spell-IsSolid : (bytes : Bytes) → IsSolid (spell bytes)
spell-IsSolid [] = tt
spell-IsSolid (b ∷ bytes) =
    All-append _ (replicate b b'a') (b'b' ∷ spell bytes) (letters-IsSolid b)
      (refl, spell-IsSolid bytes)

-- A mini-secret is the phrase itself, and a key the length of the seed and the path and 31 other bytes.
abbrev toy : Sr25519
toy = record {
  dev_phrase = codes "dev";
  mini_secret_of = λ phrase. some phrase;
  derive = λ seed path. some (length (seed ++ path) ∷ replicate 31 7);
  ss58_address = λ key prefix. spell key;
  address_info = λ address. unspell 0 address;
}

abbrev key_length : Option Bytes → ℕ
key_length none = 0
key_length (some key) = length key

toy_laws : CodecLaws toy
toy_laws = record {
  key_size = λ seed path key derived. ap key_length (sym derived);
  address_read = λ key size. unspell-spell key;
  address_trim = λ key size. trim-IsSolid (spell key) (spell-IsSolid key);
}

parse_suri_test :
    parse_suri toy (codes " some words //node/1")
    ≡ ok (record { mini_secret = codes "some words"; path = codes "//node/1" })
unfolding parse_suri
parse_suri_test = refl

password_test : parse_suri toy (codes "some words///pw") ≡ throws password_form
unfolding parse_suri
password_test = refl

derive_keypair_agreement_example :
    (address_result (derive_keypair toy (codes "//Alice")).result
      ≡ (address_from_suri toy (codes "//Alice")).result)
    × All IsWiped (derive_keypair toy (codes "//Alice")).seeds
    × All IsWiped (address_from_suri toy (codes "//Alice")).seeds
derive_keypair_agreement_example = derive_keypair_agreement toy toy_laws (codes "//Alice")

abbrev key : Bytes
key = replicate 32 7

derive_keypair-generate_new_account_example :
    account_result (to_hex key) (derive_keypair toy (to_hex key)).result
    ≡ (generate_new_account toy key).result
derive_keypair-generate_new_account_example =
    derive_keypair-generate_new_account toy toy_laws key (omega arith) refl
