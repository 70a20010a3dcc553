-- ===== src/Scheduler/OnFetched.antt =====
-- src/scheduler/default/Scheduler.cpp: `onFetched`, which hands the results to every table.
use contentv.Prelude.{ℕ, ◌+◌, ◌≡◌, refl, List, [], ◌∷◌, arith, length}
use contentv.Prelude.Result.{Result, ok, ◌>>=◌}
use contentv.Core.Time.{Tp}
use contentv.Core.Url.{Web}
use contentv.Core.FreqMap.{UrlTpStat}
use contentv.Core.Records.{FetchResult, FetchStats}
use contentv.Ldb.Store.{LevelDb}
use contentv.Ldb.HostDb.{HostDb}
use contentv.Ldb.HostDb
use contentv.Ldb.HostDb.Limits.{IsWithin, on_fetched-IsWithin}
use contentv.Ldb.UrlDb.{UrlDb}
use contentv.Ldb.UrlDb
use contentv.Ldb.UrlDb.Modify.{IsValid, on_fetched-IsValid}
use contentv.Ldb.CrawledDb
use contentv.Ldb.CrawledDb.Counts.{all_counts, all_counts-on_fetched}
use contentv.Scheduler.Stats.{inc_stats}

-- The tables and the counters that `onFetched` writes; `crawled` is the queue of the crawled table.
pub record SchedulerState (Db : Type 0) : Type 0 where
  pub urls : UrlDb
  pub hosts : HostDb Db
  pub crawled : List UrlTpStat
  pub stats : FetchStats

abbrev pub fetches_of : FetchStats → ℕ
fetches_of st = st.success + st.fail + st.robots_success + st.robots_fail

fetches_of-inc_stats_one :
    (st : FetchStats) (r : FetchResult) → fetches_of (inc_stats st (r ∷ [])) ≡ fetches_of st + 1
unfolding inc_stats
fetches_of-inc_stats_one st r = ground arith

pub fetches_of-inc_stats :
    (st : FetchStats) (rs : List FetchResult)
    → fetches_of (inc_stats st rs) ≡ fetches_of st + length rs
unfolding inc_stats
fetches_of-inc_stats st [] = omega arith
fetches_of-inc_stats st (r ∷ rs) =
    omega (arith, fetches_of-inc_stats (inc_stats st (r ∷ [])) rs, fetches_of-inc_stats_one st r)

module _ (web : Web) (level : LevelDb) (round : Tp → Tp) where
  open level use {Db}

  -- The two tables that ask the clock do it on their own.
  unfoldable pub on_fetched :
      SchedulerState Db → List FetchResult → Tp → (ℕ → Tp) → Result (SchedulerState Db)
  unfolding UrlDb.on_fetched HostDb.on_fetched CrawledDb.on_fetched inc_stats
  on_fetched s rs url_now crawled_clock = do
    urls ← UrlDb.on_fetched round s.urls rs url_now
    ok (record {
      urls = urls;
      hosts = HostDb.on_fetched web level s.hosts rs;
      crawled = CrawledDb.on_fetched s.crawled rs crawled_clock;
      stats = inc_stats s.stats rs;
    })

  -- The url table has no url without attempts or with more than ten, and no host has more than `n`
  -- running fetches.
  pub record IsSound (n : ℕ) (s : SchedulerState Db) : Type 0 where
    pub urls_valid : IsValid s.urls
    pub hosts_within : IsWithin n s.hosts

  -- `onFetched` on sound tables never throws and leaves them sound, and each result is counted once by
  -- the counters of the scheduler and once by the events of the crawled table.
  pub on_fetched-IsSound :
      (n : ℕ) (s : SchedulerState Db) (rs : List FetchResult) (url_now : Tp)
      (crawled_clock : ℕ → Tp)
      → IsSound n s
      → (s' : SchedulerState Db) × (on_fetched s rs url_now crawled_clock ≡ ok s')
        × IsSound n s'
        × (fetches_of s'.stats ≡ fetches_of s.stats + length rs)
        × (all_counts s'.crawled ≡ all_counts s.crawled + length rs)
  unfolding on_fetched
  on_fetched-IsSound n s rs url_now crawled_clock h =
      let u = on_fetched-IsValid round s.urls rs url_now h.urls_valid in
      (
        record {
          urls = u.0;
          hosts = HostDb.on_fetched web level s.hosts rs;
          crawled = CrawledDb.on_fetched s.crawled rs crawled_clock;
          stats = inc_stats s.stats rs;
        },
        rw (u.1) refl,
        record {
          urls_valid = u.2;
          hosts_within = on_fetched-IsWithin web level n s.hosts rs h.hosts_within;
        },
        fetches_of-inc_stats s.stats rs,
        all_counts-on_fetched s.crawled rs crawled_clock,
      )
