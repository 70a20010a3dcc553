-- ===== src/Ldb/CrawledDb/Events.antt =====
-- src/ldb/CrawledDb.cpp: what happens to the crawled table in its life, and what a merge does to it.
use contentv.Prelude.{ℕ, suc, ◌+◌, String, List, [], ◌∷◌, false, All, All-append, length}
use contentv.Core.Time.{Tp}
use contentv.Core.Attempts.{AttemptStatus, enqueued}
use contentv.Core.Records.{FetchResult}
use contentv.Core.FreqMap.{UrlTpStat}
use contentv.Ldb.Store.{LevelDb}
use contentv.Ldb.UrlsDays.{Calendar, UrlsDays, add_events, merge}
use contentv.Ldb.UrlsDays.Visits.{IsTable}
use contentv.Ldb.UrlsDays.Table.{add_events-IsTable, merge-IsTable}
use contentv.Ldb.UrlsDays.Days.{AllDaysOf, merge-AllDaysOf, add_events-AllDaysOf}
use contentv.Ldb.UrlsDaysDb.{DaysCodec, UrlsDaysDb, dequeued, merge_upd, merge_events_from_queue}
use contentv.Ldb.CrawledDb.{save_result, save_counts, on_fetched}

-- What happens to the crawled table: some urls are enqueued, some results come in, or its queue is
-- merged, each with the times that are read.
pub data Event : Type 0 where
  put_enqueued : ℕ → Tp → Event
  put_results : List FetchResult → (ℕ → Tp) → Event
  put_merged : (ℕ → Tp) → Tp → Event

-- The urls that were enqueued, and the results that came in.
unfoldable pub enqueued_of : List Event → ℕ
enqueued_of [] = 0
enqueued_of (put_enqueued n now ∷ es) = n + enqueued_of es
enqueued_of (put_results rs clock ∷ es) = enqueued_of es
enqueued_of (put_merged clock now ∷ es) = enqueued_of es

unfoldable pub results_of : List Event → ℕ
results_of [] = 0
results_of (put_enqueued n now ∷ es) = results_of es
results_of (put_results rs clock ∷ es) = length rs + results_of es
results_of (put_merged clock now ∷ es) = results_of es

pub save_counts-All :
    (P : Tp → Type 0)
    → (q : List UrlTpStat) (m : List (AttemptStatus × ℕ)) (clock : ℕ → Tp) → ((i : ℕ) → P (clock i))
    → All (λ (e : UrlTpStat). P e.tp) q
    → All (λ (e : UrlTpStat). P e.tp) (save_counts q m clock)
unfolding save_counts save_result
save_counts-All P q [] clock c h = h
save_counts-All P q ((s, n) ∷ m) clock c h =
    save_counts-All P (save_result q s n (clock 0)) m (λ i. clock (suc i)) (λ i. c (suc i))
      (All-append (λ (e : UrlTpStat). P e.tp) q (_ ∷ []) h (c 0, tt))

module _ (cal : Calendar) (codec : DaysCodec) (level : LevelDb) where
  open level use {Db}

  unfoldable pub step_event : Event → UrlsDaysDb Db → UrlsDaysDb Db
  unfolding save_result on_fetched merge_events_from_queue
  step_event (put_enqueued n now) s = record s { q = save_result s.q enqueued n now }
  step_event (put_results rs clock) s = record s { q = on_fetched s.q rs clock }
  step_event (put_merged clock now) s = merge_events_from_queue cal codec level s clock now

  unfoldable pub run_events : List Event → UrlsDaysDb Db → UrlsDaysDb Db
  unfolding step_event
  run_events [] s = s
  run_events (e ∷ es) s = run_events es (step_event e s)

  dequeued-All :
      (P : String → Type 0) (q : List UrlTpStat) (clock : ℕ → Tp)
      → All (λ (e : UrlTpStat). P (cal.get_day_str e.tp)) q
      → All (λ (e : UrlTpStat × Tp). P (cal.get_day_str e.0.tp)) (dequeued q clock)
  unfolding dequeued
  dequeued-All P [] clock h = tt
  dequeued-All P (e ∷ q) clock h = (h.0, dequeued-All P q (λ i. clock (suc i)) h.1)

  merge_upd-keeps :
      (Q : UrlsDays → Type 0) (s : UrlsDaysDb Db) (upd : UrlsDays) (now : Tp)
      → Q s.urls_days
      → Q (merge cal s.urls_days upd now)
      → Q (merge_upd cal codec level s upd now).urls_days
  unfolding merge_upd
  merge_upd-keeps Q s [] now h k = h
  merge_upd-keeps Q s (e ∷ upd) now h k = k

  -- A merge brings no day into the table but those of the queue, and none twice.
  pub merged-AllDaysOf :
      (P : String → Type 0) (s : UrlsDaysDb Db) (clock : ℕ → Tp) (now : Tp)
      → AllDaysOf P s.urls_days
      → All (λ (e : UrlTpStat). P (cal.get_day_str e.tp)) s.q
      → AllDaysOf P (merge_events_from_queue cal codec level s clock now).urls_days
  unfolding merge_events_from_queue
  merged-AllDaysOf P s clock now h k =
      let events = dequeued s.q clock in
      merge_upd-keeps (AllDaysOf P) (record s { q = []; merge_finished = false })
        (add_events cal [] events) now h
        (merge-AllDaysOf cal P s.urls_days (add_events cal [] events) now h
          (add_events-AllDaysOf cal P [] events (dequeued-All P s.q clock k) tt))

  pub merged-IsTable :
      (s : UrlsDaysDb Db) (clock : ℕ → Tp) (now : Tp)
      → IsTable cal s.urls_days
      → IsTable cal (merge_events_from_queue cal codec level s clock now).urls_days
  unfolding merge_events_from_queue
  merged-IsTable s clock now t =
      let events = dequeued s.q clock in
      merge_upd-keeps (IsTable cal) (record s { q = []; merge_finished = false })
        (add_events cal [] events) now t
        (merge-IsTable cal s.urls_days (add_events cal [] events) now t
          (add_events-IsTable cal [] events (tt, tt)))
