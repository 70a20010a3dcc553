-- ===== src/Tests.antt =====
-- Concrete instances of what is not part of the repository, and the theorems at concrete inputs.
pub mod Texts
pub mod Instances
pub mod Helpers
pub mod CoreRuns
pub mod LdbRuns
pub mod DayRuns
pub mod PageRuns
pub mod QueueRuns
pub mod LoopRuns
pub mod Clients
pub mod ApiRuns
pub mod RpcRuns
pub mod BinRuns
