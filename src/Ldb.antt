-- ===== src/Ldb.antt =====
-- The persistent tables of src/ldb.
pub mod Store
pub mod Lvl
pub mod Dumps
pub mod PageDb
pub mod QueryDb
pub mod HostDb
pub mod UrlDb
pub mod UrlsDays
pub mod UrlsDaysDb
pub mod CrawledDb
