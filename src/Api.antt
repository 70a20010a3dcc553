-- ===== src/Api.antt =====
-- src/api/v1: the HTTP API, by which clients set groups of queries and read their hits.
pub mod Parsing
pub mod Crypto
pub mod Response
pub mod Handlers
pub mod Server
