-- ===== src/Ldb/CrawledDb/InProgress.antt =====
-- src/ldb/CrawledDb.cpp: `getInProgress` against everything that was saved on one day.
use contentv.Prelude.{
  ℕ, ◌+◌, ◌≤◌, ◌≡◌, refl, sym, ap, ◌∙◌, subst, String, List, [], ◌∷◌, false, arith, All, All-append,
  All-map_imp, eq_iff, inl, inr,
}
use contentv.Prelude.Dict.{Dict, find, find-All}
use contentv.Core.Time.{Tp}
use contentv.Core.FreqMap.{UrlTpStat}
use contentv.Core.Attempts.{enqueued}
use contentv.Ldb.Store.{LevelDb}
use contentv.Ldb.UrlsDays.{Calendar, UrlDays, UrlsDays, duration}
use contentv.Ldb.UrlsDays.Counts.{visits}
use contentv.Ldb.UrlsDays.Visits.{IsTable, visits_nil}
use contentv.Ldb.UrlsDays.Table.{total_in}
use contentv.Ldb.UrlsDays.Days.{AllDays, AllDaysOf}
use contentv.Ldb.UrlsDaysDb.{DaysCodec, UrlsDaysDb, merge_events_from_queue}
use contentv.Ldb.UrlsDaysDb.Conserved.{IsTimely, IsKept, known, visits-merge_events_from_queue}
use contentv.Ldb.CrawledDb.{
  gen_fake_url_for_result, status_number, save_result, count_statuses, on_fetched, get_today_events,
  sum_events, get_finished_today,
}
use contentv.Ldb.CrawledDb.Tally.{AllFinished, tally-enqueued, on_fetched-tally}
use contentv.Ldb.CrawledDb.Today.{HasToday, IsUpTo, get_today_events_lem}
use contentv.Ldb.CrawledDb.Events.{
  Event, put_enqueued, put_results, put_merged, enqueued_of, results_of, step_event, run_events,
  save_counts-All, merged-AllDaysOf, merged-IsTable,
}

counted_of :
    (e : Event) (es : List Event)
    → (enqueued_of (e ∷ es) ≡ enqueued_of (e ∷ []) + enqueued_of es)
      × (results_of (e ∷ es) ≡ results_of (e ∷ []) + results_of es)
unfolding enqueued_of results_of
counted_of (put_enqueued n now) es = (omega arith, omega arith)
counted_of (put_results rs clock) es = (omega arith, omega arith)
counted_of (put_merged clock now) es = (omega arith, omega arith)

-- A map with no other day than today has no day at all, or today.
has_today : (today : String) (m : Dict ℕ) → AllDays (λ day. day ≡ today) m → HasToday today m
unfolding find
has_today today [] h = inl refl
has_today today ((day, n) ∷ m) h = inr (n, rw ((eq_iff day today).1 h.0) refl)

module _ (cal : Calendar) (codec : DaysCodec) (level : LevelDb) where
  open level use {Db}

  module _ (today : String) (latest : Tp) where
    -- The time is today's, and it is not too long before `latest` to be counted.
    abbrev pub IsToday : Tp → Type 0
    IsToday now = (cal.get_day_str now ≡ today) × (latest ≤ now + duration)

    -- All that the table has and all that waits for it is of today.
    pub record IsOfToday (s : UrlsDaysDb Db) : Type 0 where
      pub days : AllDaysOf (λ day. day ≡ today) s.urls_days
      pub table : IsTable cal s.urls_days
      pub waiting : All (λ (e : UrlTpStat). IsToday e.tp) s.q

    -- The event reads today's times only, its results have ended, and a merge is not after `latest`.
    abbrev pub IsEvent : Event → Type 0
    IsEvent (put_enqueued n now) = IsToday now
    IsEvent (put_results rs clock) = ((i : ℕ) → IsToday (clock i)) × AllFinished rs
    IsEvent (put_merged clock now) = ((i : ℕ) → clock i ≤ latest) × (now ≤ latest)

    abbrev known_id : ℕ → UrlsDaysDb Db → ℕ
    known_id id s = known cal codec level (gen_fake_url_for_result id) today s

    abbrev known_finished : UrlsDaysDb Db → ℕ
    known_finished s = known_id 2 s + (known_id 3 s + (known_id 4 s + known_id 5 s))

    timely :
        (q : List UrlTpStat)
        → All (λ (e : UrlTpStat). IsToday e.tp) q
        → All (IsTimely cal codec level latest) q
    timely q h =
        All-map_imp (λ (e : UrlTpStat). IsToday e.tp) (IsTimely cal codec level latest) q
          (λ e t. t.1) h

    -- A merge moves what waits into the table.
    merged :
        (s : UrlsDaysDb Db) (clock : ℕ → Tp) (now : Tp)
        → IsKept cal codec level latest today
        → IsOfToday s
        → ((i : ℕ) → clock i ≤ latest)
        → now ≤ latest
        → ((id : ℕ)
            → visits
                (gen_fake_url_for_result id)
                today
                (merge_events_from_queue cal codec level s clock now).urls_days
              ≡ known_id id s)
          × ((merge_events_from_queue cal codec level s clock now).q ≡ [])
    merged s clock now k i c n =
        let m = λ (id : ℕ).
          visits-merge_events_from_queue cal codec level latest s clock now
            (gen_fake_url_for_result id) today k (timely s.q i.waiting) c n in
        ((λ id. (m id).0), (m 0).1)

    merged_known :
        (s : UrlsDaysDb Db) (clock : ℕ → Tp) (now : Tp)
        → IsKept cal codec level latest today
        → IsOfToday s
        → ((i : ℕ) → clock i ≤ latest)
        → now ≤ latest
        → (id : ℕ)
        → known_id id (merge_events_from_queue cal codec level s clock now) ≡ known_id id s
    unfolding known total_in
    merged_known s clock now k i c n id =
        let m = merged s clock now k i c n in
        omega (arith, m.0 id, ap (total_in cal (gen_fake_url_for_result id) today) m.1)

    step_event-IsOfToday :
        (e : Event) (s : UrlsDaysDb Db)
        → IsKept cal codec level latest today
        → IsEvent e
        → IsOfToday s
        → IsOfToday (step_event cal codec level e s)
    unfolding save_result on_fetched step_event
    step_event-IsOfToday (put_enqueued n now) s k h i = record {
      days = i.days;
      table = i.table;
      waiting = All-append (λ (e : UrlTpStat). IsToday e.tp) s.q (_ ∷ []) i.waiting (h, tt);
    }
    step_event-IsOfToday (put_results rs clock) s k h i = record {
      days = i.days;
      table = i.table;
      waiting = save_counts-All IsToday s.q (count_statuses rs []) clock h.0 i.waiting;
    }
    step_event-IsOfToday (put_merged clock now) s k h i = record {
      days =
          merged-AllDaysOf cal codec level (λ day. day ≡ today) s clock now i.days
            (All-map_imp (λ (e : UrlTpStat). IsToday e.tp)
              (λ (e : UrlTpStat). cal.get_day_str e.tp ≡ today) s.q (λ e t. t.0) i.waiting);
      table = merged-IsTable cal codec level s clock now i.table;
      waiting =
          subst (All (λ (e : UrlTpStat). IsToday e.tp)) (sym ((merged s clock now k i h.0 h.1).1))
            tt;
    }

    step_event-known :
        (e : Event) (s : UrlsDaysDb Db)
        → IsKept cal codec level latest today
        → IsEvent e
        → IsOfToday s
        → (known_id 0 (step_event cal codec level e s) ≡ known_id 0 s + enqueued_of (e ∷ []))
          × (known_finished (step_event cal codec level e s)
              ≡ known_finished s + results_of (e ∷ []))
    unfolding known step_event enqueued_of results_of
    step_event-known (put_enqueued n now) s k h i =
        let t = tally-enqueued cal codec level today s.q n now h.0 in
        (omega (arith, t.0), omega (arith, t.1))
    step_event-known (put_results rs clock) s k h i =
        let t = on_fetched-tally cal codec level today s.q rs clock (λ j. (h.0 j).0) h.1 in
        (omega (arith, t.0), omega (arith, t.1))
    step_event-known (put_merged clock now) s k h i =
        let m = merged_known s clock now k i h.0 h.1 in
        (omega (arith, m 0), omega (arith, m 2, m 3, m 4, m 5))

    run_events-known :
        (es : List Event) (s : UrlsDaysDb Db)
        → IsKept cal codec level latest today
        → All IsEvent es
        → IsOfToday s
        → IsOfToday (run_events cal codec level es s)
          × (known_id 0 (run_events cal codec level es s) ≡ known_id 0 s + enqueued_of es)
          × (known_finished (run_events cal codec level es s) ≡ known_finished s + results_of es)
    unfolding run_events enqueued_of results_of
    run_events-known [] s k h i = (i, omega arith, omega arith)
    run_events-known (e ∷ es) s k h i =
        let one = step_event-known e s k h.0 i in
        let ih =
          run_events-known es (step_event cal codec level e s) k h.1
            (step_event-IsOfToday e s k h.0 i) in
        let split = counted_of e es in
        (ih.0, omega (arith, one.0, ih.1, split.0), omega (arith, one.1, ih.2, split.1))

    get_today_events_known :
        (s : UrlsDaysDb Db) (id : ℕ)
        → IsOfToday s
        → get_today_events s.urls_days id ≡ visits (gen_fake_url_for_result id) today s.urls_days
    get_today_events_known s id i =
        get_today_events_lem s.urls_days id today
          (All-map_imp (λ (e : String × UrlDays). AllDays (λ day. day ≡ today) e.1.day_visits)
            (λ (e : String × UrlDays). AllDays (IsUpTo today) e.1.day_visits) s.urls_days
            (λ e h.
              All-map_imp (λ (d : String × ℕ). d.0 ≡ today) (λ (d : String × ℕ). IsUpTo today d.0)
                e.1.day_visits (λ d t. inl t) h)
            i.days)
          (i.table.1)
          (λ d f. has_today today d.day_visits (
            find-All (λ (e : String × UrlDays). AllDays (λ day. day ≡ today) e.1.day_visits) _ d
              s.urls_days i.days f))

    nothing_known :
        (id : ℕ) (db : Db)
        → known_id id (record { urls_days = []; q = []; merge_finished = false; db = db }) ≡ 0
    unfolding known total_in
    nothing_known id db = omega (arith, visits_nil cal (gen_fake_url_for_result id) today)

    -- The table after some events and a last merge.
    abbrev pub after_events : List Event → (ℕ → Tp) → Tp → Db → UrlsDays
    after_events es clock now db =
        (merge_events_from_queue cal codec level
          (run_events cal codec level es
            (record { urls_days = []; q = []; merge_finished = false; db = db }))
          clock now).urls_days

    -- A table that is opened on an empty disk, through a day of enqueued urls, results that have ended
    -- and merges in any order, with a last merge, gives the number of the enqueued urls and, as
    -- `getFinishedToday`, the number of the results.
    pub run_events-counted :
        (es : List Event) (clock : ℕ → Tp) (now : Tp) (db : Db)
        → IsKept cal codec level latest today
        → All IsEvent es
        → ((i : ℕ) → clock i ≤ latest)
        → now ≤ latest
        → (get_today_events (after_events es clock now db) (status_number enqueued)
            ≡ enqueued_of es)
          × (get_finished_today (after_events es clock now db) ≡ results_of es)
    unfolding get_finished_today sum_events step_event
    run_events-counted es clock now db k h c n =
        let start : UrlsDaysDb Db = record {
          urls_days = [];
          q = [];
          merge_finished = false;
          db = db;
        } in
        let r =
          run_events-known es start k h (record { days = tt; table = (tt, tt); waiting = tt }) in
        let s = run_events cal codec level es start in
        let m = merged s clock now k r.0 c n in
        let i = step_event-IsOfToday (put_merged clock now) s k (c, n) r.0 in
        let e = λ (id : ℕ).
          get_today_events_known (step_event cal codec level (put_merged clock now) s) id i
          ∙ m.0 id in
        let none = λ (id : ℕ). nothing_known id db in
        (
          e 0 ∙ omega (arith, r.1, none 0),
          omega (arith, e 2, e 3, e 4, e 5, r.2, none 2, none 3, none 4, none 5),
        )
