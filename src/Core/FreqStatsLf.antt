-- ===== src/Core/FreqStatsLf.antt =====
-- src/core/UrlFreqStatsLF.h and .cpp: the most visited urls of the last hour and day, behind a queue of
-- events. `misc::MergeQueue`, whose thread takes the events out, is a parameter; here is what it
-- calls, and what is called from outside.
use contentv.Prelude.{ℕ, String, List, Bool}
use contentv.Prelude.Int.{ℤ}
use contentv.Core.Time.{Tp}
use contentv.Core.FreqMap.{UrlVisit, UrlTpStat, UrlFreq, of_visit}
use contentv.Core.FreqStats.{LastPerMaps}
use contentv.Core.FreqStats
use contentv.Misc.{MergeQueue}

module _ (mq : MergeQueue UrlTpStat) where
  -- The base class's queue and `m_maps`.
  pub record UrlFreqStatsLf : Type 0 where
    pub queue : mq.Queue
    pub maps : LastPerMaps

  -- `insertVisitsPack`, which does not use the time.
  unfoldable pub insert_visits_pack : UrlFreqStatsLf → UrlTpStat → Tp → UrlFreqStatsLf
  insert_visits_pack s uts now = record s { queue = mq.push s.queue uts }

  -- `insert`
  unfoldable pub insert : UrlFreqStatsLf → UrlVisit → Tp → UrlFreqStatsLf
  unfolding of_visit
  insert s uv now = record s { queue = mq.push s.queue (of_visit uv) }

  -- `max`, under the read lock.
  unfoldable pub max_size : UrlFreqStatsLf → ℕ
  unfolding FreqStats.max_size
  max_size s = FreqStats.max_size s.maps

  -- `getTopUrls`: the code is that of `UrlFreqStats`, on the maps of the moment.
  unfoldable pub get_top_urls : UrlFreqStatsLf → ℤ → (String → Bool) → List UrlFreq
  unfolding FreqStats.get_top_urls
  get_top_urls s limit filter = FreqStats.get_top_urls s.maps limit filter

  -- `accEvent`, on the maps of a batch.
  unfoldable pub acc_event : LastPerMaps → UrlTpStat → Tp → LastPerMaps
  unfolding FreqStats.insert_visits_pack
  acc_event ufms ev now = FreqStats.insert_visits_pack ufms ev now

  -- `copyGlobalObj`
  unfoldable pub copy_global_obj : UrlFreqStatsLf → LastPerMaps
  copy_global_obj s = s.maps

  -- `merge`
  unfoldable pub merge : LastPerMaps → LastPerMaps → LastPerMaps
  unfolding FreqStats.merge
  merge a b = FreqStats.merge a b

  -- `switchGlobalObj`
  unfoldable pub switch_global_obj : UrlFreqStatsLf → LastPerMaps → UrlFreqStatsLf
  switch_global_obj s a = record s { maps = a }
