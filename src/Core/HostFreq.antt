-- ===== src/Core/HostFreq.antt =====
-- src/core/CrawlLimits.h and .cpp, HostFreq.h and .cpp: how often one host is fetched.
pub mod Laws
use contentv.Prelude.{ℕ, suc, ◌+◌, ◌-◌, Bool, true, false, leb, ◌==◌, if◌then◌else◌}
use contentv.Prelude.Int.{ℤ, pos, negsuc}
use contentv.Core.Time.{Tp}
use contentv.Core.Window.{TpSlidWin}
use contentv.Core.Window

-- The limits come from the configuration and may be negative.
pub record CrawlLimits : Type 0 where
  pub max_host_parallel_crawl : ℤ
  pub max_host_minute_crawl : ℤ
  pub max_host_hour_crawl : ℤ
  pub max_host_day_crawl : ℤ
  pub max_system_parallel_crawl : ℤ

pub record HostFreq : Type 0 where
  pub crawling_now : ℕ
  pub min : TpSlidWin
  pub hour : TpSlidWin
  pub day : TpSlidWin

-- The three readings of the clock that one call makes, one for each window.
pub record Readings : Type 0 where
  pub at_min : Tp
  pub at_hour : Tp
  pub at_day : Tp

unfoldable pub new : HostFreq
unfolding Window.new
new = record {
  crawling_now = 0;
  min = Window.new 60;
  hour = Window.new 3600;
  day = Window.new 86400;
}

-- `n >= limit` for a number that is not negative.
unfoldable pub reaches : ℕ → ℤ → Bool
reaches n (pos limit) = leb limit n
reaches n (negsuc limit) = true

unfoldable pub day_allowed : CrawlLimits → Readings → HostFreq → HostFreq × Bool
unfolding Window.size reaches
day_allowed limits at h =
    let (day, n) = Window.size h.day at.at_day in
    if reaches n limits.max_host_day_crawl
    then (record h { day = day }, false)
    else (record h { day = day }, true)

unfoldable pub hour_allowed : CrawlLimits → Readings → HostFreq → HostFreq × Bool
unfolding Window.size reaches day_allowed
hour_allowed limits at h =
    let (hour, n) = Window.size h.hour at.at_hour in
    if reaches n limits.max_host_hour_crawl
    then (record h { hour = hour }, false)
    else day_allowed limits at (record h { hour = hour })

unfoldable pub min_allowed : CrawlLimits → Readings → HostFreq → HostFreq × Bool
unfolding Window.size reaches hour_allowed
min_allowed limits at h =
    let (min, n) = Window.size h.min at.at_min in
    if reaches n limits.max_host_minute_crawl
    then (record h { min = min }, false)
    else hour_allowed limits at (record h { min = min })

-- `isAllowed`: the parallel limit, then one window after the other. A test that fails ends the
-- call, and the windows behind it are not cleaned.
unfoldable pub is_allowed : CrawlLimits → Readings → HostFreq → HostFreq × Bool
unfolding reaches min_allowed
is_allowed limits at h =
    if reaches h.crawling_now limits.max_host_parallel_crawl
    then (h, false)
    else min_allowed limits at h

unfoldable pub inc_crawling : Readings → HostFreq → HostFreq
unfolding Window.inc
inc_crawling at h = record {
  crawling_now = h.crawling_now + 1;
  min = Window.inc h.min at.at_min;
  hour = Window.inc h.hour at.at_hour;
  day = Window.inc h.day at.at_day;
}

unfoldable pub dec_crawling : HostFreq → HostFreq
dec_crawling h = if h.crawling_now == 0 then h else record h { crawling_now = h.crawling_now - 1 }
