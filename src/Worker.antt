-- ===== src/Worker.antt =====
-- src/worker: reading the queue and fetching the urls.
pub mod ReqBatch
pub mod FetchLoop
pub mod QueryLoop
