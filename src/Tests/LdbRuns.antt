-- ===== src/Tests/LdbRuns.antt =====
-- The theorems of the tables at concrete inputs.
use contentv.Prelude.{ℕ, ◌*◌, ◌-◌, ◌≡◌, ◌≤◌, refl, inl, inr, String, List, [], ◌∷◌, some, arith}
use contentv.Prelude.Dict.{Dict, find, IsUnique}
use contentv.Prelude.Result.{ok}
use contentv.Core.Time.{Tp}
use contentv.Core.FreqMap.{UrlTpStat}
use contentv.Core.Attempts.{CrawlAttempt, CrawlAttempts, fetched, status_5xx}
use contentv.Core.Records.{GfqRecord, FetchResult}
use contentv.Core.Url.{UrlParsed, of_ada}
use contentv.Ldb.HostDb.{HostDb, Clock, freq_at, try_crawl, open_db}
use contentv.Ldb.HostDb
use contentv.Ldb.HostDb.Limits.{cap, Call, tries, fetches, run}
use contentv.Ldb.HostDb.Running.{running, running-le_cap}
use contentv.Ldb.HostDb.Permits.{IsSound, try_crawl-IsSound}
use contentv.Ldb.HostDb.Fetched.{reopen-on_fetched}
use contentv.Ldb.UrlDb.{
  UrlDb, disallow_try_in_a_day, is_allow, is_need_crawl, is_need_crawl_robots, set_enqueued,
  set_result, load_data, snap_data,
}
use contentv.Ldb.UrlDb.Policy.{wait_after, wait_after_robots, has_waited, is_need_crawl-wait}
use contentv.Ldb.UrlDb.Modify.{IsValid, Recorded, set_enqueued-blocks, set_result-Recorded}
use contentv.Ldb.Dumps.{put_all}
use contentv.Ldb.UrlDb.Snapshot.{load_data-snap_data}
use contentv.Ldb.UrlsDays.{UrlsDays, to_utsv, get_utsv, merge}
use contentv.Ldb.UrlsDays.Visits.{get_utsv-merge_new}
use contentv.Tests.Instances.{web, level, empty_disk, codec}
use contentv.Tests.Helpers.{calendar}
use contentv.Tests.CoreRuns.{limits, at_ten}

abbrev pub hour : ℕ
hour = 3600000000000

-- A clock that stands still.
abbrev pub still : ℕ → Clock
still i = record { ask_host = at_ten; ask_global = at_ten; inc_host = at_ten; inc_global = at_ten }

abbrev pub page : GfqRecord
page = record { url = "https://h/1"; attempt_ts = 1 }

abbrev pub robots : GfqRecord
robots = record { url = "https://h/robots.txt"; attempt_ts = 1 }

abbrev robots_result : FetchResult
robots_result = record { gfq = robots; status = fetched; error_str = ""; content = "User-agent: *" }

abbrev pub host_db : HostDb ((m : Dict String) × IsUnique m)
host_db = record {
  limits = limits;
  host_freq = [];
  global_freq = record { crawling_now = 9; min = w; hour = w; day = w };
  host_robots = ("h", "User-agent: *") ∷ [];
  db = empty_disk;
}
  where
    w : contentv.Core.Window.TpSlidWin
    w = record { q = []; window = 60 }

-- Two fetches are asked for, the result of one comes, and a third is asked for.
abbrev host_calls : List Call
host_calls =
    tries (robots ∷ robots ∷ []) still ∷ fetches (robots_result ∷ []) ∷ tries (page ∷ []) still ∷ []

running-le_cap_example :
    (running web level "h" (open_db web level limits empty_disk) host_calls 0 ≤ cap limits)
    × ((freq_at "h"
          (run web level (open_db web level limits empty_disk) host_calls).host_freq).crawling_now
        ≡ running web level "h" (open_db web level limits empty_disk) host_calls 0)
running-le_cap_example = running-le_cap web level "h" limits empty_disk host_calls

try_crawl-IsSound_example :
    IsSound web host_db.host_robots 9
      (page ∷ robots ∷ [])
      (try_crawl web host_db (page ∷ robots ∷ []) still)
try_crawl-IsSound_example = try_crawl-IsSound web host_db (page ∷ robots ∷ []) still

abbrev page_parsed : UrlParsed
page_parsed = of_ada (record { host = "h"; href = "https://h/1"; protocol = "https:" })

reopen-on_fetched_example :
    find "h"
      (open_db web level limits
        (HostDb.on_fetched web level
          (open_db web level limits empty_disk)
          (robots_result ∷ [])).db).host_robots
    ≡ find "h"
        (HostDb.on_fetched web level
          (open_db web level limits empty_disk)
          (robots_result ∷ [])).host_robots
reopen-on_fetched_example =
    reopen-on_fetched web level limits empty_disk (robots_result ∷ []) "h" ((λ host. refl), tt)

abbrev broken : CrawlAttempt
broken = record { tp = hour; status = status_5xx }

abbrev url_db : UrlDb
url_db = ("a", record { tp = 0; status = fetched } ∷ broken ∷ []) ∷ []

abbrev a_attempts : CrawlAttempts
a_attempts = record { tp = 0; status = fetched } ∷ broken ∷ []

abbrev same_time : Tp → Tp
same_time t = t

url_db-IsValid : IsValid url_db
url_db-IsValid = ((omega arith, omega arith), tt)

is_need_crawl-wait_example :
    (is_allow (is_need_crawl url_db "a" (4 * hour))
      ≡ has_waited (wait_after a_attempts status_5xx) (4 * hour - hour))
    × (is_allow (is_need_crawl_robots url_db "a" (4 * hour))
        ≡ has_waited (wait_after_robots status_5xx) (4 * hour - hour))
unfolding find
is_need_crawl-wait_example = is_need_crawl-wait url_db "a" (4 * hour) a_attempts broken refl refl

set_enqueued-blocks_example :
    is_need_crawl (set_enqueued same_time url_db ("b" ∷ "a" ∷ []) (5 * hour)) "a" (6 * hour)
    ≡ disallow_try_in_a_day
set_enqueued-blocks_example =
    set_enqueued-blocks same_time url_db ("b" ∷ "a" ∷ []) "a" (5 * hour) (6 * hour) (inr (inl refl))
      (omega arith)

set_result-Recorded_example :
    (db' : UrlDb) × (set_result same_time url_db "b" fetched hour ≡ ok db')
    × Recorded same_time url_db "b" fetched db'
set_result-Recorded_example = set_result-Recorded same_time url_db "b" fetched hour url_db-IsValid

load_data-snap_data_example :
    (db' : UrlDb) × (load_data codec level (snap_data codec level url_db empty_disk) ≡ ok db')
    × (find "a" db' ≡ some a_attempts)
unfolding find put_all
load_data-snap_data_example =
    load_data-snap_data codec level url_db empty_disk "a" a_attempts (refl, tt)
      (((0, refl), ((hour, refl), tt)), tt) tt refl refl

abbrev day_a : UrlTpStat
day_a = record { url = "a"; tp = hour; cnt = 2 }

abbrev known : UrlsDays
known = ("b", record { url = "b"; day_visits = ("2024-05-05", 1) ∷ [] }) ∷ []

abbrev fresh : UrlsDays
fresh = ("a", record { url = "a"; day_visits = ("2024-05-05", 2) ∷ [] }) ∷ []

get_utsv-merge_new_example :
    get_utsv calendar (merge calendar known fresh hour) "a"
    ≡ some (to_utsv calendar "" (("2024-05-05", 2) ∷ []))
unfolding find
get_utsv-merge_new_example =
    get_utsv-merge_new calendar known fresh hour "a"
      (record { url = "a"; day_visits = ("2024-05-05", 2) ∷ [] }) ((refl, tt), ((refl, tt), tt))
      refl refl
