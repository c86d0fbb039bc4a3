-- ===== src/Squid/Substrate.antt =====
-- packages/indexer/squid-common/src/substrate.ts: the shapes of signers and origins. A payload is a
-- JSON value of which `__kind` and `value` are read.
pub mod Classes
use predictor_common.Prelude.Text.{Text, codes, text_eq}
use predictor_common.Prelude.{Bool, true, false, Option, none, some, if◌then◌else◌}

-- `scalar` is a value that is no string and no object.
pub data Payload : Type 0 where
  undefined_value null_value scalar : Payload
  text : Text → Payload
  object : (kind value : Payload) → Payload

pub data SignatureAddress : Type 0 where
  hex wrapped kinded : Text → SignatureAddress
  missing : SignatureAddress

pub data Origin : Type 0 where
  unsigned : Origin
  signed_hex signed_id : Text → Origin

-- `typeof payload === "string"`.
abbrev pub text_of : Payload → Option Text
text_of (text s) = some s
text_of undefined_value = none
text_of null_value = none
text_of scalar = none
text_of (object kind value) = none

abbrev pub is_undefined : Payload → Bool
is_undefined undefined_value = true
is_undefined null_value = false
is_undefined scalar = false
is_undefined (text s) = false
is_undefined (object kind value) = false

abbrev pub or_missing : (Text → SignatureAddress) → Option Text → SignatureAddress
or_missing class none = missing
or_missing class (some s) = class s

unfoldable pub classify_signature_address : Payload → SignatureAddress
classify_signature_address undefined_value = missing
classify_signature_address null_value = missing
classify_signature_address scalar = missing
classify_signature_address (text s) = hex s
classify_signature_address (object kind value) =
    if is_undefined kind
    then or_missing wrapped (text_of value)
    else or_missing kinded (text_of value)

-- `kind === name`.
abbrev pub is_kind : Text → Payload → Bool
is_kind name (text s) = text_eq s name
is_kind name undefined_value = false
is_kind name null_value = false
is_kind name scalar = false
is_kind name (object kind value) = false

abbrev pub or_unsigned : Option Text → Origin
or_unsigned none = unsigned
or_unsigned (some s) = signed_id s

abbrev pub signer_of : Payload → Origin
signer_of (text s) = signed_hex s
signer_of (object kind value) =
    if is_kind (codes "Id") kind then or_unsigned (text_of value) else unsigned
signer_of undefined_value = unsigned
signer_of null_value = unsigned
signer_of scalar = unsigned

abbrev pub inner_of : Payload → Origin
inner_of (object kind value) = if is_kind (codes "Signed") kind then signer_of value else unsigned
inner_of undefined_value = unsigned
inner_of null_value = unsigned
inner_of scalar = unsigned
inner_of (text s) = unsigned

unfoldable pub classify_origin : Payload → Origin
classify_origin (object kind value) =
    if is_kind (codes "system") kind then inner_of value else unsigned
classify_origin undefined_value = unsigned
classify_origin null_value = unsigned
classify_origin scalar = unsigned
classify_origin (text s) = unsigned
