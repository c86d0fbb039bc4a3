-- ===== src/Graphql.antt =====
-- packages/web/graphql-client/src: the client for GraphQL that the web apps share.
pub mod Fragments
pub mod Pages
pub mod Fetch
pub mod Resource
