-- ===== src/Squid/EventMeta/RowIds.antt =====
-- The ids of the rows that packages/indexer/squid-common/src makes for the events it reads.
use predictor_common.Prelude.Text.{Text}
use predictor_common.Prelude.Int.{ℤ, pos, negsuc}
use predictor_common.Prelude.{ℕ, ◌≡◌, Option, some, arith}
use predictor_common.Squid.ChainCoord.{ChainCoord, chain_coord_id_make, parse}
use predictor_common.Squid.ChainCoord.RoundTrip.{parse-chain_coord_id_make}
use predictor_common.Squid.EventMeta.{
  BlockHeader, EventRecord, EventMeta, nonnegative, index_of_extrinsic, hash_of_extrinsic,
  extract_event_meta,
}

abbrev pub coord_of : EventMeta → ChainCoord
coord_of meta = record {
  block_number = meta.block_number;
  extrinsic_index = meta.extrinsic_index;
  event_index = meta.event_index;
}

nonnegative-eq : (i : ℤ) {n : ℕ} → nonnegative i ≡ some n → i ≡ pos n
nonnegative-eq (pos m) h = ground arith
nonnegative-eq (negsuc m) h = absurd (cc h)

-- What the fields of an event are, where none is missing.
extract_event_meta-fields :
    (block_header : BlockHeader) (event : EventRecord) (meta : EventMeta)
    → extract_event_meta block_header event ≡ some meta
    → (block_header.height ≡ pos meta.block_number)
      × (block_header.timestamp ≡ some meta.timestamp)
      × (index_of_extrinsic event.extrinsic ≡ pos meta.extrinsic_index)
      × (event.index_in_block ≡ some (pos meta.event_index))
      × (hash_of_extrinsic event.extrinsic ≡ meta.extrinsic_hash)
unfolding extract_event_meta
extract_event_meta-fields block_header event meta h = ground arith

-- The id of a row that is made of an event's meta reads back as the event's own place: the block's height,
-- the event's index in the block, and the index of its extrinsic, or 0 where there is none or it has none.
pub extract_event_meta-row_id :
    (block_header : BlockHeader) (event : EventRecord) (meta : EventMeta) (suffix : Option Text)
    → extract_event_meta block_header event ≡ some meta
    → (c : ChainCoord) × (parse suffix (chain_coord_id_make (coord_of meta) suffix) ≡ some c)
      × (block_header.height ≡ pos c.block_number)
      × (event.index_in_block ≡ some (pos c.event_index))
      × (index_of_extrinsic event.extrinsic ≡ pos c.extrinsic_index)
extract_event_meta-row_id block_header event meta suffix h =
    let (block, _, extrinsic, index, _) = extract_event_meta-fields block_header event meta h in
    (coord_of meta, parse-chain_coord_id_make (coord_of meta) suffix, block, index, extrinsic)
