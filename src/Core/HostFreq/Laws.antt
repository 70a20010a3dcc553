-- ===== src/Core/HostFreq/Laws.antt =====
-- src/core/HostFreq.cpp: what a permission says of the counters.
use contentv.Prelude.{ℕ, ◌<◌, ◌≡◌, true, false, arith}
use contentv.Prelude.Int.{ℤ, pos, negsuc, pos_part}
use contentv.Core.Window
use contentv.Core.HostFreq.{
  HostFreq, CrawlLimits, Readings, reaches, is_allowed, min_allowed, hour_allowed, day_allowed,
}

pub lt_of_not_reaches : (n : ℕ) (l : ℤ) → reaches n l ≡ false → n < pos_part l
unfolding reaches
lt_of_not_reaches n (pos l) h = ground arith
lt_of_not_reaches n (negsuc l) h = cc

-- Asking does not change the number of fetches that run.
pub is_allowed-crawling_now :
    (limits : CrawlLimits) (at : Readings) (h : HostFreq)
    → (is_allowed limits at h).0.crawling_now ≡ h.crawling_now
unfolding is_allowed min_allowed hour_allowed day_allowed
is_allowed-crawling_now limits at h = ground arith

-- The four tests that a permission has passed.
open_tests :
    (limits : CrawlLimits) (at : Readings) (h : HostFreq)
    → (is_allowed limits at h).1 ≡ true
    → (reaches h.crawling_now limits.max_host_parallel_crawl ≡ false)
      × (reaches (Window.size h.min at.at_min).1 limits.max_host_minute_crawl ≡ false)
      × (reaches (Window.size h.hour at.at_hour).1 limits.max_host_hour_crawl ≡ false)
      × (reaches (Window.size h.day at.at_day).1 limits.max_host_day_crawl ≡ false)
unfolding is_allowed min_allowed hour_allowed day_allowed
open_tests limits at h ok = ground arith

-- A host that `isAllowed` lets through is below each of its four limits: the number of fetches that
-- run, and the number in each window as `size` counts it at the clock reading of that window.
pub is_allowed-below :
    (limits : CrawlLimits) (at : Readings) (h : HostFreq)
    → (is_allowed limits at h).1 ≡ true
    → (h.crawling_now < pos_part limits.max_host_parallel_crawl)
      × ((Window.size h.min at.at_min).1 < pos_part limits.max_host_minute_crawl)
      × ((Window.size h.hour at.at_hour).1 < pos_part limits.max_host_hour_crawl)
      × ((Window.size h.day at.at_day).1 < pos_part limits.max_host_day_crawl)
is_allowed-below limits at h ok =
    let k = open_tests limits at h ok in
    (
      lt_of_not_reaches _ _ k.0,
      lt_of_not_reaches _ _ k.1,
      lt_of_not_reaches _ _ k.2,
      lt_of_not_reaches _ _ k.3,
    )
