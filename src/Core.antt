-- ===== src/Core.antt =====
-- The value types and the counters of src/core.
pub mod Time
pub mod Sorted
pub mod Window
pub mod FreqMap
pub mod FreqStats
pub mod FreqStatsLf
pub mod Attempts
pub mod HostFreq
pub mod Records
pub mod Url
pub mod QueryGroup
pub mod Matcher
