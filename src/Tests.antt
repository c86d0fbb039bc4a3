-- ===== src/Tests.antt =====
-- Runs of the models at concrete inputs, and the theorems at concrete inputs.
mod Scale
mod Chain
mod Service
mod Squid
mod Cache
mod Graphql
mod GitHooks
mod Logger
mod Ui
mod Signer
mod Pages
mod Resource
mod Json
mod DecodeEvent
mod Env
mod Network
mod Bytes
mod Indexer
mod Catalog
