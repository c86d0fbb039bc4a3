-- ===== src/Lib.antt =====
-- Models of the shared packages under packages/ and theorems about them.
--
-- The repository is a set of small TypeScript packages that services, indexers and web apps share.
-- The chain packages talk to a Substrate node: `scale` encodes the values that `node-manager` puts
-- in its payload, and `papi-chain` wraps a client whose failures `chain-errors` classifies, retries
-- and times out. `service-runtime` keeps a service alive: a tick loop, a health monitor with its
-- routes and a graceful shutdown. `squid-common` is what the indexers share, and `graphql-client`
-- what the web apps fetch with. `git-hooks` gates the commits of every repository that installs it.
--
-- Files and what they model, each child module holding a part or the proofs of its parent:
--   Prelude       Boolean tests, lists, texts as lists of UTF-16 code units, numerals, integers and
--                 dictionaries in the order of insertion (`Map` and plain records).
--   Scale         packages/chain/scale/src/index.ts: concatBytes, the little-endian writers, compact,
--                 scaleBytes, toHex, fromHex under the same names in snake_case.
--   NodeManager   packages/chain/node-manager/src/index.ts: the heartbeat payload, on top of Scale.
--   ChainErrors   packages/chain/chain-errors/src/index.ts: the patterns and the classifier; Retry is
--                 withRetry and its backoff, Timeout is withTimeout.
--   PapiChain     packages/chain/papi-chain/src/index.ts: Connection is the client, its providers and
--                 disconnect; Calls is read, submitSigned and finalizedHeight, on top of
--                 ChainErrors; Submit is submitUnsigned.
--   Service       packages/service/service-runtime/src: Health is health.ts with the routes of
--                 healthRoutes.ts, Probe the cached probe of the same file, TickLoop scheduler.ts and
--                 Shutdown lifecycle.ts.
--   Squid         packages/indexer/squid-common/src: ChainCoord is chainCoord.ts with factory.ts,
--                 Router is router.ts with eventName.ts, Account is account.ts over a store that
--                 is given by its operations and laws, EntityCache is entityCache.ts over such a
--                 store as well, Json is json.ts and DecodeEvent decodeEvent.ts;
--                 Substrate is substrate.ts and Bytes is bytes.ts. Numeric is numeric.ts over exact
--                 decimals, Primitives is primitives.ts with factory.ts, SpecId is spec.ts, Entity
--                 entity.ts over a store, Errors errors.ts, Inputs inputs.ts and EventMeta eventMeta.ts with
--                 domain.ts; Config is config.ts with codec.ts, and Processor is processor.ts.
--   Graphql       packages/web/graphql-client/src: Fragments is fragments.ts; Visits and Closure hold
--                 the proofs about one document and about the loop, Registry those about resolve.
--                 Pages is pagination.ts, Fetch is fetchGraphql.ts with errors.ts, where a plain
--                 record of fragments has its own entries and the names that every record
--                 inherits, and Resource is react/useResource.ts with react/usePaginatedResource.ts.
--   Logger        packages/service/logger/src/index.ts: Words is splitWords and isRedactKey, Redaction
--                 is redact over a heap, Levels is createLogger with emit, write and child; Fields
--                 and Shown hold the lemmas on bound fields and on a line.
--   Env           packages/service/env/src/index.ts: the readers and parseEnv, where a text that zod
--                 itself rejects is one value.
--   Network       packages/chain/network-constants/src: the networks and the explorer's addresses.
--   Ui            packages/web/ui/src: Amount is amount.ts, Truncate truncate.ts, Strings string.ts,
--                 Number number.ts, Duration duration.ts, Ids id.ts, DateLocale dateLocale.ts and Address
--                 address.ts; CopyButton is the state of CopyToClipboardButton.tsx.
--   Catalog       scripts/check-catalog.mjs: Names holds the proofs about the block that it reads,
--                 Violations those about the packages.
--   Signer        packages/chain/substrate-signer/src/index.ts and
--                 packages/chain/substrate-primitives/src/index.ts, over the key derivation and the
--                 address codec; a seed is a buffer of bytes.
--   GitHooks      packages/tooling/git-hooks/src: PreCommit is runPreCommit of run.ts, CommitMsg is
--                 runCommitMsg with run, Install is install.ts over the files of FileSystem, and Cli is
--                 cli.ts.
--   EndToEnd      packages/tooling/e2e/src: config.ts and servers.ts; Overrides is about the settings of
--                 a consumer.
--   Tests         runs of the models, and the theorems at concrete inputs.
--
-- A function of the source keeps its name in snake_case. A closure's or an object's variables are a
-- record; what reaches it from outside, such as a call, a timer, a settled promise or a message of an
-- observable, is a constructor of a type of events, and a run is a list of them. So every
-- interleaving that the event loop allows is a list, and awaited calls are pairs of events.
-- A `bigint` or an integral `number` is a natural number or an integer without bound, as the code
-- checks its widths itself; a `Uint8Array` is a list of numbers below 256.
--
-- Bounds and fuel: `withRetry` runs on fuel that counts the attempts, and its result is shown for the
-- fuel that the policy gives. The bytes of a big `compact` and the digits of a numeral run on the
-- value itself, which each round divides. The loop of `assembleDocument` runs on a round for the
-- query and one for each definition, shown to be enough, and `redact` on a
-- depth of one more than the objects of the heap, shown to be enough as well. Every other loop is
-- structural.
--
-- Not modelled: promises and the event loop beyond the order of events; log lines except where the
-- source limits them; the polkadot-api client, TypeORM, Fastify, zod, pino and React, which are seen
-- only through the calls made of them; the configuration packages, which hold no code; the
-- components of the web packages, which render markup, and the values of the theme. What third parties compute, such as the decimals, the codecs of addresses, the
-- readers of zod and the processes that the hooks spawn, is an argument of the definitions.
pub mod Prelude
pub mod Scale
pub mod NodeManager
pub mod ChainErrors
pub mod PapiChain
pub mod Service
pub mod Squid
pub mod Graphql
pub mod GitHooks
pub mod Logger
pub mod Ui
pub mod Catalog
pub mod EndToEnd
pub mod Env
pub mod Network
pub mod Signer
mod Tests
