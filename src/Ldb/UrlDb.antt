-- ===== src/Ldb/UrlDb.antt =====
-- src/ldb/UrlDb.h, UrlDb.cpp, UrlDbPolicy.cpp, UrlDbPolicyRobots.cpp, UrlDbModify.cpp, UrlDbLoad.cpp
-- and UrlDbSnapThread.cpp: the attempts to fetch each url, and when it may be tried again. Each
-- method is one step under its mutex.
pub mod Policy
pub mod Modify
pub mod Snapshot
use contentv.Prelude.{
  ℕ, zero, suc, ◌-◌, ◌*◌, String, List, [], ◌∷◌, Option, none, some, Bool, true, false, leb, length,
  last?, if◌then◌else◌,
}
use contentv.Prelude.Dict.{Dict, find, insert}
use contentv.Prelude.Result.{Result, ok, throws, ◌>>=◌}
use contentv.Core.Time.{Tp, hours, days}
use contentv.Core.Attempts.{
  AttemptStatus, enqueued, pending, fetched, curl_err, status_4xx, status_5xx, unrecognized,
  CrawlAttempt, CrawlAttempts, add, get_last, set_last, last_4xx_5xx_count,
}
use contentv.Core.Attempts.Dump.{Codec, dump, load}
use contentv.Core.FreqMap.{UrlFreq}
use contentv.Core.Records.{FetchResult}
use contentv.Ldb.Store.{LevelDb}

-- `m_url_crawl_attempts`
abbrev pub UrlDb : Type 0
UrlDb = Dict CrawlAttempts

-- `EUrlCrawlDecisionPb`
pub data Decision : Type 0 where
  allow disallow_no_url disallow_no_reason disallow_try_in_hour disallow_wait_x2_time
        disallow_try_in_a_day :
      Decision
  disallow_try_in_a_week : Decision

-- `for (i = 0; i < count; ++i) wait_hours *= 2`
unfoldable pub double_times : ℕ → ℕ → ℕ
double_times zero wait = wait
double_times (suc n) wait = double_times n (wait * 2)

abbrev allow_or : Bool → Decision → Decision
allow_or fits other = if fits then allow else other

-- `_IsNeedCrawl` for a url with a last attempt.
unfoldable pub decide_status : CrawlAttempts → AttemptStatus → ℕ → Decision
unfolding double_times
decide_status attempts curl_err age = allow_or (leb 1 (hours age)) disallow_try_in_hour
decide_status attempts enqueued age = allow_or (leb 24 (hours age)) disallow_try_in_a_day
decide_status attempts pending age = allow_or (leb 1 (hours age)) disallow_try_in_hour
decide_status attempts fetched age = allow_or (leb 7 (days age)) disallow_try_in_a_week
decide_status attempts status_4xx age =
    allow_or (leb (double_times (last_4xx_5xx_count attempts) 1) (hours age)) disallow_wait_x2_time
decide_status attempts status_5xx age =
    allow_or (leb (double_times (last_4xx_5xx_count attempts) 1) (hours age)) disallow_wait_x2_time
decide_status attempts (unrecognized n) age = disallow_no_reason

unfoldable pub is_need_crawl : UrlDb → String → Tp → Decision
unfolding decide_status
is_need_crawl db url now = elim (find url db) [
  | none ↦ allow
  | some attempts ↦ elim (last? attempts) [
    | none ↦ allow
    | some last ↦ decide_status attempts last.status (now - last.tp)
  ]
]

-- `_IsNeedCrawlRobots` for a url with a last attempt.
unfoldable pub decide_robots_status : AttemptStatus → ℕ → Decision
decide_robots_status curl_err age = allow_or (leb 24 (hours age)) disallow_try_in_a_day
decide_robots_status enqueued age = allow_or (leb 1 (hours age)) disallow_try_in_hour
decide_robots_status pending age = allow_or (leb 1 (hours age)) disallow_try_in_hour
-- a number of days against `hours{24}`
decide_robots_status fetched age = allow_or (leb 1 (days age)) disallow_try_in_a_day
decide_robots_status status_4xx age = allow_or (leb 24 (hours age)) disallow_try_in_a_day
decide_robots_status status_5xx age = allow_or (leb 24 (hours age)) disallow_try_in_a_day
decide_robots_status (unrecognized n) age = disallow_no_reason

unfoldable pub is_need_crawl_robots : UrlDb → String → Tp → Decision
unfolding decide_robots_status
is_need_crawl_robots db url now = elim (find url db) [
  | none ↦ allow
  | some attempts ↦ elim (last? attempts) [
    | none ↦ allow
    | some last ↦ decide_robots_status last.status (now - last.tp)
  ]
]

abbrev pub is_allow : Decision → Bool
is_allow allow = true
is_allow _ = false

-- The loop of `leaveNeedUrls` and `leaveNeedRobots`: the decisions, and the urls that are allowed.
unfoldable pub leave : (String → Decision) → List UrlFreq → List Decision × List UrlFreq
leave decide [] = ([], [])
leave decide (e ∷ es) =
    let rest = leave decide es in
    (decide e.0 ∷ rest.0, if is_allow (decide e.0) then e ∷ rest.1 else rest.1)

unfoldable pub leave_need_urls : UrlDb → List UrlFreq → Tp → List Decision × List UrlFreq
unfolding leave is_need_crawl
leave_need_urls db urls now = leave (λ url. is_need_crawl db url now) urls

unfoldable pub leave_need_robots : UrlDb → List UrlFreq → Tp → List Decision × List UrlFreq
unfolding leave is_need_crawl_robots
leave_need_robots db urls now = leave (λ url. is_need_crawl_robots db url now) urls

-- `none` where `getAttempts` returns `false`.
unfoldable pub get_attempts : UrlDb → String → Option CrawlAttempts
get_attempts db url = find url db

-- `m_url_crawl_attempts[url]`
unfoldable pub attempts_of : String → UrlDb → CrawlAttempts
attempts_of url db = elim (find url db) [ none ↦ [] | some attempts ↦ attempts ]

module _ (round : Tp → Tp) where
  unfoldable pub set_enqueued_one : UrlDb → String → Tp → UrlDb
  unfolding attempts_of add
  set_enqueued_one db url tp = insert url (add round (attempts_of url db) tp).0 db

  unfoldable pub set_enqueued : UrlDb → List String → Tp → UrlDb
  unfolding set_enqueued_one
  set_enqueued db [] now = db
  set_enqueued db (url ∷ urls) now = set_enqueued (set_enqueued_one db url now) urls now

  -- A url that is not known gets an attempt at `now` first.
  unfoldable pub ensure : UrlDb → String → Tp → UrlDb
  unfolding set_enqueued_one
  ensure db url now = elim (find url db) [ none ↦ set_enqueued_one db url now | some attempts ↦ db ]

  -- `setResult`; `_setStatus` is the same for the url and the status of a fetch result.
  unfoldable pub set_result : UrlDb → String → AttemptStatus → Tp → Result UrlDb
  unfolding ensure attempts_of get_last set_last
  set_result db url status now = do
    let db' = ensure db url now
    last ← get_last (attempts_of url db')
    ok (insert url (set_last status (attempts_of url db')) db')

  unfoldable pub set_status : UrlDb → FetchResult → Tp → Result UrlDb
  unfolding set_result
  set_status db r now = set_result db r.gfq.url r.status now

  unfoldable pub on_fetched : UrlDb → List FetchResult → Tp → Result UrlDb
  unfolding set_status
  on_fetched db [] now = ok db
  on_fetched db (r ∷ rs) now = do db' ← set_status db r now; on_fetched db' rs now

module _ (codec : Codec) (level : LevelDb) where
  open level use {Db, put, scan}

  -- `_loadCrawlAttempts` over the table on disk. The constructor of an entry may throw.
  unfoldable pub load_entries : UrlDb → Dict String → Result UrlDb
  unfolding load
  load_entries db [] = ok db
  load_entries db ((url, text) ∷ rest) = do
    attempts ← load codec text
    load_entries (insert url attempts db) rest

  unfoldable pub load_data : Db → Result UrlDb
  unfolding load_entries
  load_data disk = load_entries [] (scan disk)

  -- `_snapData`: every entry of a copy of the map is written.
  unfoldable pub snap_data : UrlDb → Db → Db
  unfolding dump
  snap_data [] disk = disk
  snap_data ((url, attempts) ∷ db) disk = snap_data db (put url (dump codec attempts) disk).1
