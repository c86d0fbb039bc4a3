-- ===== src/Squid.antt =====
-- packages/indexer/squid-common/src: what the indexers share. Ids of event rows, the event router, the
-- account upsert, the cache of entities and the decoders of what the chain delivers.
pub mod ChainCoord
pub mod Router
pub mod Account
pub mod EntityCache
pub mod Json
pub mod DecodeEvent
pub mod Substrate
pub mod Bytes
pub mod Numeric
pub mod SpecId
pub mod Config
pub mod Primitives
pub mod EventMeta
pub mod Errors
pub mod Inputs
pub mod Entity
pub mod Processor
