-- ===== src/Tests/LoopRuns.antt =====
-- The theorems of the scheduler's and the worker's loops at concrete inputs.
use contentv.Prelude.{ℕ, ◌+◌, ◌≡◌, refl, String, List, [], ◌∷◌, some, true, false, arith}
use contentv.Prelude.Result.{ok}
use contentv.Prelude.Int.{pos}
use contentv.Core.FreqMap.{UrlFreq}
use contentv.Core.FreqMap
use contentv.Core.FreqStats.{LastPerMaps, max_size}
use contentv.Core.Records.{GfqRecord, FetchStats, FetchResult}
use contentv.Ldb.UrlDb.{Decision}
use contentv.Misc.{SchedulerApi}
use contentv.Scheduler.Api.{scheduler}
use contentv.Scheduler.OnFetched.{
  SchedulerState, on_fetched, IsSound, fetches_of, on_fetched-IsSound,
}
use contentv.Ldb.CrawledDb.Counts.{all_counts}
use contentv.Core.Attempts.{fetched, curl_err}
use contentv.Scheduler.Enqueue.{View, search_top}
use contentv.Scheduler.Enqueue.Search.{Found, search_top-Found}
use contentv.Scheduler.Enqueue.Loop.{Round, loop_impl, IsDone, loop_impl-IsDone}
use contentv.Worker.ReqBatch.{ReqBatch}
use contentv.Worker.FetchLoop.{Sent, send_to_curl, JobInfo}
use contentv.Worker.FetchLoop.Batch.{Conserved, send_to_curl_lem}
use contentv.Worker.FetchLoop.Queue.{FetchState}
use contentv.Prelude.Dict.{Dict, IsUnique}
use contentv.Tests.Instances.{web, level}
use contentv.Tests.Helpers.{limiter, differ, queue}
use contentv.Tests.LdbRuns.{still, page, robots, host_db}

abbrev other_page : GfqRecord
other_page = record { url = "https://h/2"; attempt_ts = 1 }

-- The scheduler on the host table, with a clock that stands still.
abbrev pub api : SchedulerApi
api = scheduler web ((m : Dict String) × IsUnique m) (λ n. still)

abbrev batch : ReqBatch
batch = page ∷ other_page ∷ robots ∷ []

send_to_curl_lem_example :
    (sent : Sent api.State) × (send_to_curl api differ 2 3 (host_db, 0) batch ≡ some (ok sent))
    × Conserved api differ 2 batch sent
send_to_curl_lem_example =
    send_to_curl_lem api differ 2 3 (host_db, 0) batch (omega arith) (omega arith)

abbrev pub waiting : FetchState (queue GfqRecord) api differ 2
waiting = record {
  queue = robots ∷ [];
  scheduler = (host_db, 0);
  called = [];
  stats = record { pushed = 4; success = 0; fail = 0; robots_success = 0; robots_fail = 0 };
  req_batch = batch;
}

abbrev no_stats : FetchStats
no_stats = record { pushed = 3; success = 0; fail = 0; robots_success = 0; robots_fail = 0 }

abbrev pub responses : List JobInfo
responses =
    record { success = true; userdata = page; resp = "text"; curlerror = "" }
    ∷ record { success = false; userdata = robots; resp = ""; curlerror = "timeout" }
    ∷ []

abbrev three_urls : LastPerMaps
three_urls = record {
  hour_map = record {
    url_freq = ("https://h/1", 2) ∷ ("https://h/2", 1) ∷ ("bad", 1) ∷ [];
    uts_q = [];
    window = 3600;
  };
  day_map = record { url_freq = []; uts_q = []; window = 86400 };
}

abbrev views : ℕ → View ((m : Dict String) × IsUnique m)
views i = record {
  stats = three_urls;
  hosts = host_db;
  urls = [];
  now = 0;
  stats_after = three_urls;
}

search_top-Found_example :
    (r : List Decision × List UrlFreq) × (search_top web limiter 3 views 4 ≡ some r)
    × Found web limiter 3 views r.1
unfolding max_size FreqMap.size
search_top-Found_example = search_top-Found web limiter 3 3 views (λ i. omega arith) (omega arith)

abbrev pub results : List FetchResult
results =
    record { gfq = page; status = fetched; error_str = ""; content = "" }
    ∷ record { gfq = robots; status = curl_err; error_str = "timeout"; content = "" }
    ∷ []

abbrev tables : SchedulerState ((m : Dict String) × IsUnique m)
tables = record { urls = []; hosts = host_db; crawled = []; stats = no_stats }

on_fetched-IsSound_example :
    (s' : SchedulerState ((m : Dict String) × IsUnique m)) × (on_fetched web level
        (λ t. t)
        tables
        results
        7
        (λ i. i)
      ≡ ok s')
    × IsSound web level (λ t. t) 1 s'
    × (fetches_of s'.stats ≡ 0 + 2)
    × (all_counts s'.crawled ≡ all_counts [] + 2)
on_fetched-IsSound_example =
    on_fetched-IsSound web level (λ t. t) 1 tables results 7 (λ i. i)
      (record { urls_valid = tt; hosts_within = record { same_cap = refl; hosts = tt } })

loop_impl-IsDone_example :
    (r : Round) × (loop_impl web limiter (λ t. t) (λ t. t) (pos 2) views 4 [] [] 7 8 ≡ some r)
    × IsDone (λ t. t) (λ t. t) (pos 2) [] 8 9 9 r
unfolding max_size FreqMap.size
loop_impl-IsDone_example =
    loop_impl-IsDone web limiter (λ t. t) (λ t. t) (pos 2) 3 views [] [] 7 8 9 9 (λ i. omega arith)
      tt (omega arith) (omega arith)
