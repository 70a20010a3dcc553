-- ===== src/Scheduler/Enqueue/Day.antt =====
-- src/scheduler/default/EnqueueLoop.cpp on src/ldb/CrawledDb.cpp: what `_calcToEnqueueNow` makes of the
-- results that the scheduler has saved today.
use contentv.Prelude.{ℕ, ◌+◌, ◌-◌, ◌≤◌, ◌≡◌, ap₂, ◌∙◌, String, List, arith, All, max}
use contentv.Prelude.Int.{pos, ◌-ℤ◌}
use native.Mathlib.Nat.{div-le_self}
use contentv.Core.Time.{Tp}
use contentv.Ldb.Store.{LevelDb}
use contentv.Ldb.UrlsDays.{Calendar}
use contentv.Ldb.UrlsDaysDb.{DaysCodec}
use contentv.Ldb.UrlsDaysDb.Conserved.{IsKept}
use contentv.Ldb.CrawledDb.{get_finished_today, get_in_progress}
use contentv.Ldb.CrawledDb.Events.{Event, enqueued_of, results_of}
use contentv.Ldb.CrawledDb.InProgress.{IsEvent, after_events, run_events-counted}
use contentv.Scheduler.Enqueue.{calc_to_enqueue_now}
use contentv.Scheduler.Enqueue.Target.{share, calc_to_enqueue_now_lem}

share-le : (left hours_left : ℕ) → share left hours_left ≤ left
share-le left hours_left = ground (arith, div-le_self left hours_left)

pos-ℤpos : (m n : ℕ) → n ≤ m → pos m -ℤ pos n ≡ pos (m - n)
unfolding ◌-ℤ◌
pos-ℤpos m n h = ground (arith, h)

bound :
    (target_day results urls hours_left : ℕ)
    → results ≤ urls
    → urls + (share (target_day - results) hours_left - (urls - results)) ≤ max target_day urls
bound target_day results urls hours_left le =
    let s : share (target_day - results) hours_left ≤ target_day - results =
      share-le (target_day - results) hours_left in
    omega (arith, s, le)

module _ (cal : Calendar) (codec : DaysCodec) (level : LevelDb) (today : String) (latest : Tp)
    (es : List Event) (clock : ℕ → Tp) (now : Tp) (db : level.Db) where
  -- The crawled table is opened on an empty disk and lives through a day of enqueued urls, results that
  -- have ended, no more of them than urls, and merges in any order, with a last merge. Then
  -- `getFinishedToday` is the number of the results and `getInProgress` the number of the urls without
  -- one; a round of the enqueue loop is to enqueue this hour's share of what is left of the day's
  -- target, less what is in progress; and with that number the day's urls are at most the larger of the
  -- day's target and what they were.
  pub calc_to_enqueue_now-run_events :
      (target_day hours_left : ℕ)
      → IsKept cal codec level latest today
      → All (IsEvent cal codec level today latest) es
      → ((i : ℕ) → clock i ≤ latest)
      → now ≤ latest
      → results_of es ≤ enqueued_of es
      → let table = after_events cal codec level today latest es clock now db in
        let n = share (target_day - results_of es) hours_left - (enqueued_of es - results_of es) in
        (get_finished_today table ≡ results_of es)
        × (get_in_progress table ≡ pos (enqueued_of es - results_of es))
        × (calc_to_enqueue_now target_day
              (pos (get_finished_today table))
              (get_in_progress table)
              hours_left
            ≡ pos n)
        × (enqueued_of es + n ≤ max target_day (enqueued_of es))
  unfolding get_in_progress
  calc_to_enqueue_now-run_events target_day hours_left k h c n le =
      let r = run_events-counted cal codec level today latest es clock now db k h c n in
      let running =
        ap₂ (λ a b. pos a -ℤ pos b) r.0 r.1 ∙ pos-ℤpos (enqueued_of es) (results_of es) le in
      (
        r.1,
        running,
        ap₂ (λ f p. calc_to_enqueue_now target_day (pos f) p hours_left) r.1 running
            ∙ calc_to_enqueue_now_lem target_day (results_of es) (enqueued_of es - results_of es)
                hours_left,
        bound target_day (results_of es) (enqueued_of es) hours_left le,
      )
