-- ===== src/Ldb/CrawledDb.antt =====
-- src/ldb/CrawledDb.h and .cpp: fetch results by day, as visits of one made-up url for each status in
-- the queue of a `UrlsDaysDb`, and the events of the last day read back from its table.
pub mod Counts
pub mod Today
pub mod Tally
pub mod Events
pub mod InProgress
use Prim.Native.String.{◌++◌ as text_append}
use contentv.Prelude.{
  ℕ, zero, suc, ◌+◌, ◌/◌, ◌%◌, ◌≡◌, refl, String, List, [], ◌∷◌, ◌++◌, Option, none, some, Bool,
  true, false, arith, ltb, ◌==◌, length, get_elem?, if◌then◌else◌,
}
use contentv.Prelude.Dict.{Dict, find}
use contentv.Prelude.Int.{ℤ, pos, ◌-ℤ◌}
use contentv.Core.Time.{Tp}
use contentv.Core.Attempts.{
  AttemptStatus, enqueued, pending, fetched, curl_err, status_4xx, status_5xx, unrecognized,
}
use contentv.Core.Records.{FetchResult}
use contentv.Core.FreqMap.{UrlTpStat}
use contentv.Ldb.UrlsDays.{UrlsDays, str_lt}

-- The number of an enumerator in src/proto/CrawlAttempts.proto; an unknown number is not below 6.
abbrev pub status_number : AttemptStatus → ℕ
status_number enqueued = 0
status_number pending = 1
status_number fetched = 2
status_number curl_err = 3
status_number status_4xx = 4
status_number status_5xx = 5
status_number (unrecognized n) = suc (suc (suc (suc (suc (suc n)))))

abbrev digits : List String
digits = "0" ∷ "1" ∷ "2" ∷ "3" ∷ "4" ∷ "5" ∷ "6" ∷ "7" ∷ "8" ∷ "9" ∷ []

abbrev digit : ℕ → String
digit n = elim (get_elem? digits n) [ none ↦ "" | some s ↦ s ]

-- `stream << n`; a number has fewer digits than its value plus one.
unfoldable decimal : ℕ → ℕ → String
decimal zero n = ""
decimal (suc fuel) n =
    let rest = decimal fuel (n / 10) in
    if ltb n 10 then digit n else text_append rest (digit (n % 10))

unfoldable pub gen_fake_url_for_result : ℕ → String
unfolding decimal
gen_fake_url_for_result id = text_append "https://ya.ru/" (decimal (suc id) id)

-- `saveResult` of a status with a count: the queue gets one more event.
unfoldable pub save_result : List UrlTpStat → AttemptStatus → ℕ → Tp → List UrlTpStat
unfolding gen_fake_url_for_result
save_result q status cnt now =
    q ++ record { url = gen_fake_url_for_result (status_number status); tp = now; cnt = cnt } ∷ []

-- `++status_cnt[status]` of a map in the order of the statuses' numbers.
unfoldable pub count_status : AttemptStatus → List (AttemptStatus × ℕ) → List (AttemptStatus × ℕ)
count_status s [] = (s, 1) ∷ []
count_status s ((t, n) ∷ m) =
    if status_number t == status_number s
    then (t, suc n) ∷ m
    else if ltb (status_number s) (status_number t)
    then (s, 1) ∷ (t, n) ∷ m
    else (t, n) ∷ count_status s m

unfoldable pub count_statuses :
    List FetchResult → List (AttemptStatus × ℕ) → List (AttemptStatus × ℕ)
unfolding count_status
count_statuses [] m = m
count_statuses (r ∷ rs) m = count_statuses rs (count_status r.status m)

-- `clock i` is the reading for the i-th status.
unfoldable pub save_counts : List UrlTpStat → List (AttemptStatus × ℕ) → (ℕ → Tp) → List UrlTpStat
unfolding save_result
save_counts q [] clock = q
save_counts q ((s, n) ∷ m) clock = save_counts (save_result q s n (clock 0)) m (λ i. clock (suc i))

unfoldable pub on_fetched : List UrlTpStat → List FetchResult → (ℕ → Tp) → List UrlTpStat
unfolding count_statuses save_counts
on_fetched q rs clock = save_counts q (count_statuses rs []) clock

-- The entry of the last day: a `std::map` ends with its greatest key.
unfoldable pub last_day : String × ℕ → Dict ℕ → String × ℕ
last_day e [] = e
last_day e (f ∷ m) = last_day (if str_lt e.0 f.0 then f else e) m

-- The count of the last element of `utsv`, if there is one.
unfoldable pub last_cnt : Dict ℕ → ℕ
unfolding last_day
last_cnt [] = 0
last_cnt (e ∷ m) = (last_day e m).1

-- `_getTodayEvents`
unfoldable pub get_today_events : UrlsDays → ℕ → ℕ
unfolding gen_fake_url_for_result last_cnt
get_today_events s event_id = elim (find (gen_fake_url_for_result event_id) s) [
  | none ↦ 0
  | some d ↦ last_cnt d.day_visits
]

-- `_fillEnumFinishedValues`: the numbers from 2 to the last enumerator's.
abbrev pub enum_finished_values : List ℕ
enum_finished_values = 2 ∷ 3 ∷ 4 ∷ 5 ∷ []

unfoldable pub sum_events : UrlsDays → List ℕ → ℕ
unfolding get_today_events
sum_events s [] = 0
sum_events s (id ∷ ids) = get_today_events s id + sum_events s ids

-- `getFinishedToday`
unfoldable pub get_finished_today : UrlsDays → ℕ
unfolding sum_events
get_finished_today s = sum_events s enum_finished_values

-- `getInProgress`
unfoldable pub get_in_progress : UrlsDays → ℤ
unfolding get_today_events get_finished_today
get_in_progress s = pos (get_today_events s (status_number enqueued)) -ℤ pos (get_finished_today s)
