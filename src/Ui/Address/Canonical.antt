-- ===== src/Ui/Address/Canonical.antt =====
-- The encoded form of packages/web/ui/src/address.ts is canonical.
use predictor_common.Prelude.Text.{Text, text_eq_iff}
use predictor_common.Prelude.{
  ℕ, ◌≡◌, refl, sym, ap, ◌∙◌, Bool, true, false, Bool-cases, ◌&&◌, ◌==◌, some, List, length,
  Option-cases, inl, inr,
}
use predictor_common.Ui.Address.{
  AddressCodec, bytes_of, encode_bytes, encode_address, is_encoded_address,
}

-- What the encoders promise: the text of some bytes is decoded, by the decoder that its form selects, to
-- these bytes again.
pub record Reads (codec : AddressCodec) : Type 0 where
  pub reads_ss58 :
      (bytes : List ℕ) (prefix : ℕ) (text : Text)
      → codec.ss58_encode bytes prefix ≡ some text
      → (codec.is_hex text ≡ false) × (codec.ss58_decode text ≡ some bytes)
  pub reads_ethereum :
      (bytes : List ℕ) (text : Text)
      → codec.ethereum_encode bytes ≡ some text
      → (codec.is_hex text ≡ true) × (codec.hex_to_u8a text ≡ bytes)

module _ (codec : AddressCodec) (reads : Reads codec) (prefix : ℕ) where
  bytes_of-encode_bytes :
      (bytes : List ℕ) (text : Text)
      → encode_bytes codec prefix bytes ≡ some text
      → bytes_of codec text ≡ some bytes
  bytes_of-encode_bytes bytes text h = elim (Bool-cases (length bytes == 20)) [
    | inl short ↦
        let (hex, same) = reads.reads_ethereum bytes text (rw short at h) in rw (hex, same) refl
    | inr long ↦
        let (plain, same) = reads.reads_ss58 bytes prefix text (rw long at h) in
        rw (plain, same) refl
  ]

  abbrev IsFixed : Text → Type 0
  IsFixed address =
      encode_address codec (encode_address codec address prefix) prefix
      ≡ encode_address codec address prefix

  again :
      (bytes : List ℕ) (text : Text)
      → encode_bytes codec prefix bytes ≡ some text
      → encode_address codec text prefix ≡ text
  unfolding encode_address
  again bytes text h = rw (bytes_of-encode_bytes bytes text h, h) refl

  unchanged : (address : Text) → encode_address codec address prefix ≡ address → IsFixed address
  unchanged address h = ap (λ a. encode_address codec a prefix) h

  encode_address-IsFixed : (address : Text) → IsFixed address
  unfolding encode_address
  encode_address-IsFixed address = elim (Option-cases (bytes_of codec address)) [
    | inl e ↦ unchanged address (rw e refl)
    | inr (bytes, e) ↦ elim (Option-cases (encode_bytes codec prefix bytes)) [
      | inl f ↦ unchanged address (rw (e, f) refl)
      | inr (text, f) ↦
          let encoded : encode_address codec address prefix ≡ text = rw (e, f) refl in
          rw encoded (again bytes text f)
    ]
  ]

and_true : (b : Bool) → (b && true) ≡ b
and_true true = refl
and_true false = refl

-- Where the decoders read what the encoders write: an address that was encoded for a prefix is the same
-- when it is encoded for this prefix again, and it counts as encoded exactly when it is an address at
-- all; so does a text that could not be decoded and was kept.
pub encode_address-is_encoded :
    (codec : AddressCodec)
    → Reads codec
    → (address : Text) (prefix : ℕ)
    → (encode_address codec (encode_address codec address prefix) prefix
        ≡ encode_address codec address prefix)
      × (is_encoded_address codec (encode_address codec address prefix) prefix
          ≡ codec.is_address (encode_address codec address prefix))
unfolding is_encoded_address
encode_address-is_encoded codec reads address prefix =
    let same = encode_address-IsFixed codec reads prefix address in
    let encoded = encode_address codec address prefix in
    (
      same,
      ap (λ b. codec.is_address encoded && b)
            ((text_eq_iff encoded (encode_address codec encoded prefix)).1 (sym same))
          ∙ and_true (codec.is_address encoded),
    )
