-- ===== src/Scheduler/Start.antt =====
-- src/scheduler/default/Scheduler.cpp: the end of the constructor, which fills the frequencies from the
-- table of days; in a dry run one round of the load loop is run before it, beside the merge thread of
-- the table. The tables are opened before, by their own constructors, and the round of the enqueue
-- loop that a dry run ends with is Scheduler/Enqueue/Loop.
use contentv.Prelude.{
  ℕ, List, [], ◌∷◌, ◌++◌, Option, none, some, Bool, true, false, map, if◌then◌else◌,
}
use contentv.Core.Time.{Tp}
use contentv.Core.FreqMap.{UrlTpStat}
use contentv.Misc.{MergeQueue}
use contentv.Ldb.Store.{LevelDb}
use contentv.Ldb.UrlsDays.{Calendar}
use contentv.Ldb.UrlsDaysDb.{DaysCodec, merge_events_from_queue, Op, visit, merged}
use contentv.Scheduler.LoadLoop.{Handed, LoadState, on_visit, fill_url_freq_stats}

-- A round of `_mergeThread`, with the times that it reads.
pub record Merge : Type 0 where
  pub clock : ℕ → Tp
  pub now : Tp

-- What happens next while the load loop runs beside the merge thread. A visit that is handed over while
-- a merge empties the queue is either taken by that merge or left for the next.
pub data Turn : Type 0 where
  hands : Handed → Turn
  merges : Merge → Turn

-- The visits that the load loop is handed.
unfoldable pub handed_of : List Turn → List Handed
handed_of [] = []
handed_of (hands h ∷ ts) = h ∷ handed_of ts
handed_of (merges m ∷ ts) = handed_of ts

abbrev pub only_merges : List Merge → List Turn
only_merges = map merges

module _ (mq : MergeQueue UrlTpStat) (cal : Calendar) (codec : DaysCodec) (level : LevelDb) where
  unfoldable pub run_turns : LoadState mq cal codec level → List Turn → LoadState mq cal codec level
  unfolding on_visit merge_events_from_queue
  run_turns s [] = s
  run_turns s (hands h ∷ ts) = run_turns (on_visit mq cal codec level s h) ts
  run_turns s (merges m ∷ ts) =
      run_turns
        (record s {
          urls_days_db = merge_events_from_queue cal codec level s.urls_days_db m.clock m.now;
        })
        ts

  -- `_loopImpl` of the load loop, and `waitMerged`, which returns when `m_merge_finished` is set, by
  -- whichever merge. In a state where it is not, `waitMerged` still waits.
  unfoldable pub load_and_merge :
      LoadState mq cal codec level → List Turn → Option (LoadState mq cal codec level)
  unfolding run_turns
  load_and_merge s turns =
      let s' = run_turns s turns in if s'.urls_days_db.merge_finished then some s' else none

  -- `_fillUrlFreqStats`, which reads the table after these merges.
  unfoldable pub fill_after :
      LoadState mq cal codec level → List Merge → Tp → LoadState mq cal codec level × ℕ
  unfolding run_turns fill_url_freq_stats
  fill_after s ms now =
      let s' = run_turns s (only_merges ms) in
      let f = fill_url_freq_stats mq cal codec level s'.urls_days_db s'.url_freq_stats now in
      (record s' { url_freq_stats = f.0 }, f.1)

  -- The constructor, with `m_loaded_uts_count`.
  unfoldable pub construct :
      Bool
      → LoadState mq cal codec level
      → List Turn
      → List Merge
      → Tp
      → Option (LoadState mq cal codec level × ℕ)
  unfolding load_and_merge fill_after
  construct true s turns ms now = elim (load_and_merge s turns) [
    | none ↦ none
    | some s' ↦ some (fill_after s' ms now)
  ]
  construct false s turns ms now = some (fill_after s ms now)

  -- The turns that the constructor waits for, and all turns up to the reading of the table.
  abbrev pub awaited : Bool → List Turn → List Turn
  awaited dry_run turns = if dry_run then turns else []

  abbrev pub all_turns : Bool → List Turn → List Merge → List Turn
  all_turns dry_run turns ms = awaited dry_run turns ++ only_merges ms

  -- The turns as operations of the table of days.
  unfoldable pub ops : List Turn → List (Op cal codec level)
  ops [] = []
  ops (hands h ∷ ts) = visit h.visit ∷ ops ts
  ops (merges m ∷ ts) = merged m.clock m.now ∷ ops ts
