-- ===== src/Scheduler/Enqueue.antt =====
-- src/scheduler/default/EnqueueLoop.cpp and EnqueueLoopFilter.cpp: how many urls are enqueued, and
-- which.
pub mod Search
pub mod Target
pub mod Loop
pub mod Day
use contentv.Prelude.{
  ℕ, zero, suc, ◌-◌, ◌*◌, ◌%◌, ◌^◌, String, List, [], ◌∷◌, ◌++◌, Option, none, some, Bool, true,
  false, ltb, leb, ◌==◌, length, map, if◌then◌else◌,
}
use contentv.Prelude.Int.{ℤ, pos, negsuc, pos_part, ◌-ℤ◌, ltb_ℤ, quot_ℤ}
use contentv.Core.Time.{Tp}
use contentv.Core.Url.{Web}
use contentv.Core.FreqMap.{UrlFreq}
use contentv.Core.FreqStats.{LastPerMaps, max_size, get_top_urls_all, reduce_url_freqs}
use contentv.Core.Records.{GfqRecord}
use contentv.Ldb.HostDb.{HostDb, leave_allowed_by_robots}
use contentv.Ldb.UrlDb.{UrlDb, Decision, leave_need_urls, leave_need_robots, set_enqueued}
use contentv.Misc.{Limiter}

-- What one call of `_filter` reads of the other components, and what `max()` reads behind it: other
-- threads may write to them in between.
pub record View (Db : Type 0) : Type 0 where
  pub stats : LastPerMaps
  pub hosts : HostDb Db
  pub urls : UrlDb
  pub now : Tp
  pub stats_after : LastPerMaps

-- The parameter `int limit` of `getTopUrls` gets a 64-bit `Cnt`.
unfoldable pub as_int : ℕ → ℤ
as_int n = let r = n % 2 ^ 32 in if ltb r (2 ^ 31) then pos r else negsuc (2 ^ 32 - r - 1)

unfoldable pub limit_urls :
    Limiter → ℕ → List Decision × List UrlFreq → List Decision × List UrlFreq
limit_urls limiter target r =
    (r.0, if ltb target (length r.1) then limiter.limit_vector r.1 target else r.1)

module _ (web : Web) {Db : Type 0} where
  unfoldable pub need_crawl_urls : View Db → List UrlFreq → List Decision × List UrlFreq
  unfolding leave_allowed_by_robots leave_need_urls leave_need_robots reduce_url_freqs
  need_crawl_urls v urls =
      let (allowed, need_robots) = leave_allowed_by_robots web v.hosts urls in
      let (decisions, need) = leave_need_urls v.urls allowed v.now in
      let filtered = (leave_need_robots v.urls (reduce_url_freqs need_robots) v.now).1 in
      (decisions, filtered ++ need)

  unfoldable pub filter_top : View Db → ℕ → List Decision × List UrlFreq
  unfolding need_crawl_urls get_top_urls_all as_int
  filter_top v top = need_crawl_urls v (get_top_urls_all v.stats (as_int top))

  module _ (limiter : Limiter) (target : ℕ) where
    -- The body of the loop of `searchTop` after `top_cur *= 2`. `views i` is for the i-th call of
    -- `_filter`; `none` is a loop that has used up its fuel.
    unfoldable pub search_loop : (ℕ → View Db) → ℕ → ℕ → ℕ → Option (List Decision × List UrlFreq)
    unfolding filter_top limit_urls max_size
    search_loop views zero i top = none
    search_loop views (suc fuel) i top =
        let r = filter_top (views i) top in
        let rest = search_loop views fuel (suc i) (top * 2) in
        if leb target (length r.1)
        then some (limit_urls limiter target r)
        else if ltb (max_size (views i).stats_after) top
        then some r
        else rest

    unfoldable pub search_top : (ℕ → View Db) → ℕ → Option (List Decision × List UrlFreq)
    unfolding filter_top limit_urls search_loop
    search_top views fuel =
        let r = filter_top (views 0) target in
        let rest = search_loop views fuel 1 (target * 2) in
        if leb target (length r.1) then some (limit_urls limiter target r) else rest

-- `_calcHourTarget`, from what is finished today and the whole hours until midnight.
unfoldable pub calc_hour_target : ℕ → ℤ → ℕ → ℤ
unfolding ◌-ℤ◌ quot_ℤ
calc_hour_target target_day finished hours_left =
    let left = pos target_day -ℤ finished in
    if hours_left == 0 then left else quot_ℤ left hours_left

unfoldable pub calc_to_enqueue_now : ℕ → ℤ → ℤ → ℕ → ℤ
unfolding calc_hour_target ◌-ℤ◌
calc_to_enqueue_now target_day finished in_progress hours_left =
    let hour_target = calc_hour_target target_day finished hours_left in
    if ltb_ℤ in_progress hour_target then hour_target -ℤ in_progress else pos 0

-- `_pushToKafka`: the records that are written, `ts` being the seconds of the attempt's time.
unfoldable pub push_to_kafka : List String → ℕ → List GfqRecord
push_to_kafka [] ts = []
push_to_kafka (url ∷ urls) ts = record { url = url; attempt_ts = ts } ∷ push_to_kafka urls ts
