-- ===== src/Squid/EventMeta.antt =====
-- packages/indexer/squid-common/src/eventMeta.ts and domain.ts: what every handler reads of an event.
-- A field that the producer leaves out is `none`, and so is an invalid date; `none` is a throw.
pub mod RowIds
use predictor_common.Prelude.Text.{Text}
use predictor_common.Prelude.Int.{ℤ, pos, negsuc}
use predictor_common.Prelude.{ℕ, Option, none, some}

pub record BlockHeader : Type 0 where
  pub height : ℤ
  pub timestamp : Option ℤ

pub record Extrinsic : Type 0 where
  pub index_in_block : Option ℤ
  pub hash : Option Text

pub record EventRecord : Type 0 where
  pub index_in_block : Option ℤ
  pub extrinsic : Option Extrinsic

pub record EventMeta : Type 0 where
  pub block_number : ℕ
  pub timestamp : ℤ
  pub extrinsic_index : ℕ
  pub event_index : ℕ
  pub extrinsic_hash : Option Text

infixl 5 ◌>>=◌
abbrev pub ◌>>=◌ {ℓ κ} : {A : Type ℓ} {B : Type κ} → Option A → (A → Option B) → Option B
none >>= f = none
some a >>= f = f a

abbrev pub nonnegative : ℤ → Option ℕ
nonnegative (pos n) = some n
nonnegative (negsuc n) = none

-- `event.extrinsic?.indexInBlock ?? 0` and `event.extrinsic?.hash ?? null`.
abbrev pub index_of_extrinsic : Option Extrinsic → ℤ
index_of_extrinsic none = pos 0
index_of_extrinsic (some x) = elim x.index_in_block [ none ↦ pos 0 | some i ↦ i ]

abbrev pub hash_of_extrinsic : Option Extrinsic → Option Text
hash_of_extrinsic none = none
hash_of_extrinsic (some x) = x.hash

-- `EventMetaSchema.parse`.
unfoldable pub extract_event_meta : BlockHeader → EventRecord → Option EventMeta
extract_event_meta block_header event = do
  block ← nonnegative block_header.height
  time ← block_header.timestamp
  extrinsic ← nonnegative (index_of_extrinsic event.extrinsic)
  index ← event.index_in_block
  event_index ← nonnegative index
  some (record {
    block_number = block;
    timestamp = time;
    extrinsic_index = extrinsic;
    event_index = event_index;
    extrinsic_hash = hash_of_extrinsic event.extrinsic;
  })
