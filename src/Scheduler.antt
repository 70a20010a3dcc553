-- ===== src/Scheduler.antt =====
-- src/scheduler: which urls are fetched, and what becomes of the results.
pub mod Enqueue
pub mod Stats
pub mod LoadLoop
pub mod Api
pub mod OnFetched
pub mod Start
pub mod Stub
pub mod Rpc
