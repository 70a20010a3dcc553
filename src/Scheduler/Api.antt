-- ===== src/Scheduler/Api.antt =====
-- src/scheduler/default/Scheduler.cpp: `tryFetchUrls`, as a worker sees it.
use contentv.Prelude.{ℕ, suc, List}
use mathlib.Core.List.{Sublistᴰ}
use contentv.Core.Url.{Web}
use contentv.Core.Records.{GfqRecord}
use contentv.Ldb.HostDb.{HostDb, Clock, try_crawl}
use contentv.Ldb.HostDb.Permits.{try_crawl-IsSound}
use contentv.Misc.{SchedulerApi}

-- The state is the host table and the number of calls so far; `clocks n` has the readings of the
-- n-th call.
unfoldable pub try_fetch_urls :
    Web
    → {Db : Type 0} → (ℕ → ℕ → Clock)
    → HostDb Db × ℕ
    → List GfqRecord
    → (HostDb Db × ℕ) × List GfqRecord
unfolding try_crawl
try_fetch_urls web clocks s xs =
    let r = try_crawl web s.0 xs (clocks s.1) in ((r.state, suc s.1), r.allowed)

pub try_fetch_urls-Sublist :
    (web : Web) {Db : Type 0} (clocks : ℕ → ℕ → Clock) (s : HostDb Db × ℕ) (xs : List GfqRecord)
    → Sublistᴰ (try_fetch_urls web clocks s xs).1 xs
unfolding try_fetch_urls
try_fetch_urls-Sublist web clocks s xs = (try_crawl-IsSound web s.0 xs (clocks s.1)).selected

-- `Scheduler` is an `IScheduler`.
abbrev pub scheduler : Web → (Db : Type 0) → (ℕ → ℕ → Clock) → SchedulerApi
scheduler web Db clocks = record {
  State = HostDb Db × ℕ;
  try_fetch_urls = try_fetch_urls web clocks;
  try_fetch_urls-Sublist = try_fetch_urls-Sublist web clocks;
}
