-- ===== src/Squid/Json/Serialize.antt =====
-- `serializeJson` of packages/indexer/squid-common/src/json.ts over values without cycles, as they are
-- after `toJSON`. What `JSON.stringify` writes is a parameter; `none` is a throw.
use predictor_common.Prelude.Text.{Text}
use predictor_common.Prelude.Digits.{decimal}
use predictor_common.Prelude.Int.{ℤ, pos, negsuc}
use predictor_common.Prelude.{ℕ, suc, ◌≡◌, Option, some, ◌∷◌}

-- `scalar` stands for what is printed as it is: a number, a Boolean, `null` or `undefined`.
mutual
  pub data Value : Type 0 where
    scalar : ℕ → Value
    big_int : ℤ → Value
    text_value : Text → Value
    compound : Fields → Value

  pub data Fields : Type 0 where
    no_more : Fields
    field : (name : Text) → Value → Fields → Fields

-- `v.toString()` of a bigint.
abbrev pub big_int_text : ℤ → Text
big_int_text (pos n) = decimal n
big_int_text (negsuc n) = b'-' ∷ decimal (suc n)

unfoldable pub bigint_replacer : Value → Value
bigint_replacer (scalar n) = scalar n
bigint_replacer (big_int i) = text_value (big_int_text i)
bigint_replacer (text_value s) = text_value s
bigint_replacer (compound fields) = compound fields

-- The replacer is called with every value before `JSON.stringify` goes into it.
unfoldable mutual
  pub replaced : Value → Value
  replaced (scalar n) = bigint_replacer (scalar n)
  replaced (big_int i) = bigint_replacer (big_int i)
  replaced (text_value s) = bigint_replacer (text_value s)
  replaced (compound fields) = compound (replaced_fields fields)

  pub replaced_fields : Fields → Fields
  replaced_fields no_more = no_more
  replaced_fields (field name v fields) = field name (replaced v) (replaced_fields fields)

unfoldable pub serialize_json : (Value → Option Text) → Value → Option Text
serialize_json stringify value = stringify (replaced value)

-- No bigint anywhere.
mutual
  pub IsPlain : Value → Type 0
  IsPlain (scalar n) = Unit
  IsPlain (big_int i) = ⊥
  IsPlain (text_value s) = Unit
  IsPlain (compound fields) = IsPlainFields fields

  pub IsPlainFields : Fields → Type 0
  IsPlainFields no_more = Unit
  IsPlainFields (field name v fields) = IsPlain v × IsPlainFields fields

mutual
  unfolding replaced bigint_replacer IsPlain

  replaced-IsPlain : (v : Value) → IsPlain (replaced v)
  replaced-IsPlain (scalar n) = tt
  replaced-IsPlain (big_int i) = tt
  replaced-IsPlain (text_value s) = tt
  replaced-IsPlain (compound fields) = replaced_fields-IsPlain fields

  replaced_fields-IsPlain : (fields : Fields) → IsPlainFields (replaced_fields fields)
  replaced_fields-IsPlain no_more = tt
  replaced_fields-IsPlain (field name v fields) =
      (replaced-IsPlain v, replaced_fields-IsPlain fields)

-- Where `JSON.stringify` throws on nothing but a bigint, a value without cycles is always serialized.
pub serialize_json-total :
    (stringify : Value → Option Text)
    → ((v : Value) → IsPlain v → (text : Text) × (stringify v ≡ some text))
    → (v : Value) → (text : Text) × (serialize_json stringify v ≡ some text)
unfolding serialize_json
serialize_json-total stringify plain v = plain (replaced v) (replaced-IsPlain v)
