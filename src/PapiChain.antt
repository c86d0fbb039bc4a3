-- ===== src/PapiChain.antt =====
-- packages/chain/papi-chain/src/index.ts: the boundary to a node. The parts of the class have
-- modules of their own; polkadot-api, the worker and the socket are seen through the calls that the
-- class makes of them and the events that they deliver.
pub mod Connection
pub mod Calls
pub mod Submit
