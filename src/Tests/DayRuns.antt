-- ===== src/Tests/DayRuns.antt =====
-- The theorems on the visits by day, at concrete inputs.
use contentv.Prelude.{
  ℕ, ◌≤◌, ◌+◌, ◌*◌, ◌-◌, ◌≡◌, refl, ap, ◌∙◌, String, List, [], ◌∷◌, Option, none, some, true, false,
  arith, ltb, length, if◌then◌else◌,
}
use contentv.Prelude.Text.{codes}
use contentv.Prelude.Result.{ok}
use contentv.Prelude.Dict.{find, insert}
use contentv.Core.FreqMap.{UrlTpStat}
use contentv.Core.FreqStats
use contentv.Ldb.CrawledDb.{get_finished_today, get_in_progress}
use contentv.Ldb.CrawledDb.Events.{
  Event, put_enqueued, put_results, put_merged, enqueued_of, results_of,
}
use contentv.Ldb.CrawledDb.InProgress.{after_events}
use contentv.Scheduler.Enqueue.{calc_to_enqueue_now}
use contentv.Scheduler.Enqueue.Day.{calc_to_enqueue_now-run_events}
use contentv.Prelude.Int.{pos}
use contentv.Tests.LoopRuns.{results}
use contentv.Ldb.UrlsDays.{Calendar, duration, str_lt, add_events}
use contentv.Ldb.UrlsDays.Counts.{visits}
use contentv.Ldb.UrlsDays.Table.{total_in}
use contentv.Ldb.UrlsDaysDb.{
  UrlDaysPb, DaysCodec, UrlsDaysDb, Op, visit, pack, merged, snapshot, run, open_db, close_db,
  merge_events_from_queue, merge_upd, dequeued,
}
use contentv.Ldb.Dumps.{put_all}
use contentv.Ldb.UrlsDaysDb.Conserved.{IsKept, known, saved, known-run}
use contentv.Ldb.UrlsDaysDb.Reopen.{open_db-close_db}
use contentv.Scheduler.LoadLoop.{LoadState}
use contentv.Scheduler.Start.{Merge, Turn, hands, merges}
use contentv.Tests.Instances.{level, empty_disk}
use contentv.Tests.Helpers.{queue}
use contentv.Tests.Texts.{encode, decode, decode-encode, unary, length-unary}

abbrev hour : ℕ
hour = 3600 * 1000000000

-- Two days.
abbrev days : Calendar
days = record {
  get_day_str = λ t. if ltb t (24 * hour) then "2024-05-05" else "2024-05-06";
  tp_from_day_str = λ day. 0;
}

abbrev texts_of : List (String × ℕ) → List String
texts_of [] = []
texts_of ((day, n) ∷ l) = day ∷ unary n ∷ texts_of l

abbrev days_of : List String → List (String × ℕ)
days_of [] = []
days_of (t ∷ []) = []
days_of (day ∷ t ∷ l) = (day, length (codes t)) ∷ days_of l

days_of-texts_of : (l : List (String × ℕ)) → days_of (texts_of l) ≡ l
days_of-texts_of [] = refl
days_of-texts_of ((day, n) ∷ l) = rw (length-unary n) (ap (λ r. (day, n) ∷ r) (days_of-texts_of l))

abbrev message_of : List String → Option UrlDaysPb
message_of [] = none
message_of (url ∷ l) = some (record { url = url; url_days = days_of l })

abbrev days_codec : DaysCodec
days_codec = record {
  serialize = λ pb. encode (pb.url ∷ texts_of pb.url_days);
  parse = λ t. message_of (decode t);
  parse-serialize = λ pb.
      ap message_of (decode-encode (pb.url ∷ texts_of pb.url_days))
      ∙ ap (λ l. some (record { url = pb.url; url_days = l })) (days_of-texts_of pb.url_days);
}

-- Up to the second hour of the second day both days are kept.
first_day-IsKept : IsKept days days_codec level (26 * hour) "2024-05-05"
first_day-IsKept now h =
    let early : ltb (now - duration) (24 * hour) ≡ true = ground (arith, h) in
    ap (λ b. str_lt "2024-05-05" (if b then "2024-05-05" else "2024-05-06")) early

abbrev start : UrlsDaysDb level.Db
start = record {
  urls_days = ("a", record { url = "a"; day_visits = ("2024-05-05", 1) ∷ [] }) ∷ [];
  q = record { url = "a"; tp = 2 * hour; cnt = 3 } ∷ [];
  merge_finished = false;
  db = empty_disk;
}

-- Two visits and a pack of five, with a merge and a snapshot in between.
abbrev day_ops : List (Op days days_codec level)
day_ops =
    visit (record { url = "a"; tp = hour })
    ∷ merged (λ i. 3 * hour) (3 * hour)
    ∷ pack (record { url = "a"; tp = 25 * hour; cnt = 5 })
    ∷ snapshot
    ∷ visit (record { url = "a"; tp = 4 * hour })
    ∷ []

known-run_example :
    known days days_codec level "a" "2024-05-05" (run days days_codec level day_ops start)
    ≡ known days days_codec level "a" "2024-05-05" start + 2
unfolding saved total_in
known-run_example =
    known-run days days_codec level (26 * hour) day_ops start "a" "2024-05-05" first_day-IsKept
      (omega arith, tt)
      (omega arith, ((λ i. omega arith, omega arith), (omega arith, (tt, (omega arith, tt)))))

open_db-close_db_example :
    (s' : UrlsDaysDb level.Db) × (open_db days days_codec level
        (close_db days days_codec level start (λ i. 3 * hour) (3 * hour))
      ≡ ok s')
    × (visits "a" "2024-05-05" s'.urls_days ≡ known days days_codec level "a" "2024-05-05" start)
unfolding known find total_in put_all merge_events_from_queue merge_upd add_events dequeued insert
open_db-close_db_example =
    open_db-close_db days days_codec level (26 * hour) start (λ i. 3 * hour) (3 * hour) "a"
      "2024-05-05" ((refl, tt), ((refl, tt), tt)) tt first_day-IsKept (omega arith, tt)
      (λ i. omega arith) (omega arith) (omega arith) refl

abbrev loader : LoadState (queue UrlTpStat) days days_codec level
loader = record {
  url_freq_stats = record { queue = []; maps = FreqStats.new };
  urls_days_db = start;
  stops = 0;
}

-- The queue is merged between the visits, so the last visit is not in the table yet when
-- `waitMerged` returns; another merge comes before the table is read.
abbrev turns : List Turn
turns =
    hands (record { visit = record { url = "a"; tp = hour }; now = 2 * hour; running = true })
    ∷ hands (record { visit = record { url = "b"; tp = hour }; now = 2 * hour; running = true })
    ∷ merges (record { clock = λ i. 3 * hour; now = 3 * hour })
    ∷ hands
        (record { visit = record { url = "a"; tp = 3 * hour }; now = 4 * hour; running = false })
    ∷ []

abbrev last_merges : List Merge
last_merges = record { clock = λ i. 5 * hour; now = 5 * hour } ∷ []

-- Three urls are enqueued, then two of them are fetched, with a merge in between.
abbrev day_events : List Event
day_events =
    put_enqueued 3 hour
    ∷ put_merged (λ i. 2 * hour) (2 * hour)
    ∷ put_results results (λ i. 3 * hour)
    ∷ []

calc_to_enqueue_now-run_events_example :
    let table =
      after_events days days_codec level "2024-05-05"
        (26 * hour)
        day_events
        (λ i. 4 * hour)
        (4 * hour)
        empty_disk in
    (get_finished_today table ≡ 2)
    × (get_in_progress table ≡ pos 1)
    × (calc_to_enqueue_now 50 (pos (get_finished_today table)) (get_in_progress table) 12 ≡ pos 3)
    × (3 + 3 ≤ 50)
unfolding enqueued_of results_of
calc_to_enqueue_now-run_events_example =
    calc_to_enqueue_now-run_events days days_codec level "2024-05-05" (26 * hour) day_events
      (λ i. 4 * hour) (4 * hour) empty_disk 50 12 first_day-IsKept
      (
        (refl, omega arith),
        (((λ i. omega arith), omega arith), (((λ i. (refl, omega arith)), (tt, (tt, tt))), tt)),
      )
      (λ i. omega arith) (omega arith) (omega arith)
