-- ===== src/Ldb/UrlsDaysDb.antt =====
-- src/ldb/UrlsDaysDb.h, .cpp and UrlsDaysDbSnap.cpp: the visits of each url by day, with the queue of
-- events that a thread merges into the table, and the snapshots of the table in LevelDB. The queue is
-- one list: the order in which events of several threads are taken out is not modelled.

pub mod Conserved
pub mod Reopen
pub mod Whole
use contentv.Prelude.{
  ℕ, suc, ◌≡◌, String, List, [], ◌∷◌, ◌++◌, Option, none, some, Bool, true, false, length,
}
use contentv.Prelude.Dict.{Dict, insert}
use contentv.Prelude.Result.{Result, ok, throws, ◌>>=◌}
use contentv.Core.Time.{Tp}
use contentv.Core.FreqMap.{UrlVisit, UrlTpStat, of_visit}
use contentv.Ldb.Store.{LevelDb}
use contentv.Ldb.Dumps.{put_all, load_all}
use contentv.Ldb.UrlsDays.{Calendar, UrlDays, UrlsDays, add_events, merge}

-- `UrlDaysPb` of src/proto/UrlDays.proto
pub record UrlDaysPb : Type 0 where
  pub url : String
  pub url_days : List (String × ℕ)

-- The generated protobuf code: a serialised message parses to itself.
pub record DaysCodec : Type 0 where
  pub serialize : UrlDaysPb → String
  pub parse : String → Option UrlDaysPb
  pub parse-serialize : (pb : UrlDaysPb) → parse (serialize pb) ≡ some pb

-- `day_visits[day_str] = visits` for each of the days of a message.
unfoldable pub put_days : List (String × ℕ) → Dict ℕ → Dict ℕ
put_days [] m = m
put_days ((day, n) ∷ days) m = put_days days (insert day n m)

-- `m_urls_days`, `m_q`, `m_merge_finished` and `m_db`
pub record UrlsDaysDb (Db : Type 0) : Type 0 where
  pub urls_days : UrlsDays
  pub q : List UrlTpStat
  pub merge_finished : Bool
  pub db : Db

-- The events that `try_dequeue` gives, the i-th with the reading of the clock in its `add`.
unfoldable pub dequeued : List UrlTpStat → (ℕ → Tp) → List (UrlTpStat × Tp)
dequeued [] clock = []
dequeued (e ∷ q) clock = (e, clock 0) ∷ dequeued q (λ i. clock (suc i))

module _ (codec : DaysCodec) where
  -- `UrlDaysImpl::dump`
  unfoldable pub dump_days : UrlDays → String
  dump_days d = codec.serialize (record { url = d.url; url_days = d.day_visits })

  -- The constructor of `UrlDaysImpl` from a dump.
  unfoldable pub load_days : String → Result UrlDays
  unfolding put_days
  load_days text = elim (codec.parse text) [
    | none ↦ throws "UrlDaysImpl::UrlDaysImpl parsing"
    | some pb ↦ ok (record { url = pb.url; day_visits = put_days pb.url_days [] })
  ]

module _ (cal : Calendar) (codec : DaysCodec) (level : LevelDb) where
  open level use {Db, scan}

  -- `saveVisitsPack`
  unfoldable pub save_visits_pack : UrlsDaysDb Db → UrlTpStat → UrlsDaysDb Db
  save_visits_pack s utp = record s { q = s.q ++ utp ∷ [] }

  -- `saveVisit`
  unfoldable pub save_visit : UrlsDaysDb Db → UrlVisit → UrlsDaysDb Db
  unfolding save_visits_pack of_visit
  save_visit s url_visit = save_visits_pack s (of_visit url_visit)

  -- The end of `_mergeEventsFromQueue`: without an event the merge is not marked as finished.
  unfoldable pub merge_upd : UrlsDaysDb Db → UrlsDays → Tp → UrlsDaysDb Db
  unfolding merge
  merge_upd s [] now = s
  merge_upd s (e ∷ upd) now = record s {
    urls_days = merge cal s.urls_days (e ∷ upd) now;
    merge_finished = true;
  }

  unfoldable pub merge_events_from_queue : UrlsDaysDb Db → (ℕ → Tp) → Tp → UrlsDaysDb Db
  unfolding merge_upd add_events dequeued
  merge_events_from_queue s clock now =
      merge_upd (record s { q = []; merge_finished = false })
        (add_events cal [] (dequeued s.q clock)) now

  -- `_saveSnapshot`, which ends at the first write that fails.
  unfoldable pub save_snapshot : UrlsDaysDb Db → UrlsDaysDb Db
  unfolding dump_days load_days put_all
  save_snapshot s = record s {
    db = (put_all (dump_days codec) (load_days codec) level s.urls_days s.db).1;
  }

  -- `_loadSnapshot`
  unfoldable pub load_snapshot : Db → Result UrlsDays
  unfolding dump_days load_days load_all
  load_snapshot disk = load_all (dump_days codec) (load_days codec) level [] (scan disk)

  -- The constructor, on the disk of an earlier run.
  unfoldable pub open_db : Db → Result (UrlsDaysDb Db)
  unfolding load_snapshot
  open_db disk = do
    urls_days ← load_snapshot disk
    ok (record { urls_days = urls_days; q = []; merge_finished = false; db = disk })

  -- The destructor, after the last merge of `_mergeThread`: what is left on the disk.
  unfoldable pub close_db : UrlsDaysDb Db → (ℕ → Tp) → Tp → Db
  unfolding merge_events_from_queue save_snapshot
  close_db s clock now = (save_snapshot (merge_events_from_queue s clock now)).db

  -- What is done with the table while it is open, each with the times that it reads.
  pub data Op : Type 0 where
    visit : UrlVisit → Op
    pack : UrlTpStat → Op
    merged : (ℕ → Tp) → Tp → Op
    snapshot : Op

  unfoldable pub step : Op → UrlsDaysDb Db → UrlsDaysDb Db
  unfolding save_visit save_visits_pack merge_events_from_queue save_snapshot
  step (visit v) s = save_visit s v
  step (pack e) s = save_visits_pack s e
  step (merged clock now) s = merge_events_from_queue s clock now
  step snapshot s = save_snapshot s

  unfoldable pub run : List Op → UrlsDaysDb Db → UrlsDaysDb Db
  unfolding step
  run [] s = s
  run (o ∷ ops) s = run ops (step o s)
