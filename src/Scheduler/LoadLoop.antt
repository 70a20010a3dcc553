-- ===== src/Scheduler/LoadLoop.antt =====
-- src/scheduler/default/LoadLoop.cpp: `_loopImpl`, which hands each visit that is read to the two
-- tables of visits, and `_fillUrlFreqStats` of src/scheduler/default/Scheduler.cpp, which fills one of
-- them from the other at the start.
pub mod Counted
use contentv.Prelude.{ℕ, suc, ◌+◌, String, List, [], ◌∷◌, Bool, if◌then◌else◌}
use contentv.Core.Time.{Tp}
use contentv.Core.FreqMap.{UrlVisit, UrlTpStat}
use contentv.Core.FreqStatsLf.{UrlFreqStatsLf, insert, insert_visits_pack}
use contentv.Misc.{MergeQueue}
use contentv.Ldb.Store.{LevelDb}
use contentv.Ldb.UrlsDays.{Calendar, iterate_all}
use contentv.Ldb.UrlsDaysDb.{DaysCodec, UrlsDaysDb, save_visit}

-- A visit that `UrlVisitsReader::read` hands over, with the readings of the clock and of `m_running`.
pub record Handed : Type 0 where
  pub visit : UrlVisit
  pub now : Tp
  pub running : Bool

module _ (mq : MergeQueue UrlTpStat) (cal : Calendar) (codec : DaysCodec) (level : LevelDb) where
  -- `stops` is how often `stop` of the reader was called.
  pub record LoadState : Type 0 where
    pub url_freq_stats : UrlFreqStatsLf mq
    pub urls_days_db : UrlsDaysDb level.Db
    pub stops : ℕ

  -- The callback.
  unfoldable pub on_visit : LoadState → Handed → LoadState
  unfolding insert save_visit
  on_visit s h = record {
    url_freq_stats = insert mq s.url_freq_stats h.visit h.now;
    urls_days_db = save_visit cal codec level s.urls_days_db h.visit;
    stops = if h.running then s.stops else suc s.stops;
  }

  -- `_loopImpl`, when the reader hands over these visits, with `loaded_cnt`.
  unfoldable pub load_impl : LoadState → List Handed → LoadState × ℕ
  unfolding on_visit
  load_impl s [] = (s, 0)
  load_impl s (h ∷ hs) = let r = load_impl (on_visit s h) hs in (r.0, suc r.1)

  -- The inner loop of `_fillUrlFreqStats`.
  unfoldable pub fill_utsv : UrlFreqStatsLf mq → List UrlTpStat → Tp → UrlFreqStatsLf mq × ℕ
  unfolding insert_visits_pack
  fill_utsv s [] now = (s, 0)
  fill_utsv s (u ∷ utsv) now =
      let r = fill_utsv (insert_visits_pack mq s u now) utsv now in (r.0, suc r.1)

  -- The callback of `iterateAll`, on each url with its statistics.
  unfoldable pub fill_all :
      UrlFreqStatsLf mq → List (String × List UrlTpStat) → Tp → UrlFreqStatsLf mq × ℕ
  unfolding fill_utsv
  fill_all s [] now = (s, 0)
  fill_all s ((url, utsv) ∷ es) now =
      let f = fill_utsv s utsv now in let r = fill_all f.0 es now in (r.0, f.1 + r.1)

  -- `_fillUrlFreqStats`, with `all_uts`.
  unfoldable pub fill_url_freq_stats :
      UrlsDaysDb level.Db → UrlFreqStatsLf mq → Tp → UrlFreqStatsLf mq × ℕ
  unfolding fill_all iterate_all
  fill_url_freq_stats d s now = fill_all s (iterate_all cal d.urls_days) now
