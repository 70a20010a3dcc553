-- ===== src/Ldb/UrlsDaysDb/Reopen.antt =====
-- src/ldb/UrlsDaysDbSnap.cpp and the destructor of src/ldb/UrlsDaysDb.cpp: what a restart keeps.
use contentv.Prelude.{
  ℕ, ◌≤◌, ◌≡◌, refl, sym, ap, ◌∙◌, subst, String, [], ◌∷◌, ◌++◌, true, false, All,
}
use mathlib.Core.List.{append-nil, append_assoc}
use contentv.Prelude.Dict.{insert_new, Dict, IsUnique}
use contentv.Prelude.Result.{Result, ok, ◌>>=◌}
use contentv.Core.Time.{Tp}
use contentv.Ldb.Store.{LevelDb}
use contentv.Ldb.Dumps.{put_all, Loads, Reloads, load_all-put_all}
use contentv.Ldb.UrlsDays.{Calendar, UrlDays, UrlsDays, add_events}
use contentv.Ldb.UrlsDays.Counts.{visits, visits_found, find-visits}
use contentv.Ldb.UrlsDays.Visits.{IsTable}
use contentv.Ldb.UrlsDays.Table.{merge-IsTable, add_events-IsTable}
use contentv.Ldb.UrlsDaysDb.{
  UrlsDaysDb, UrlDaysPb, DaysCodec, put_days, dequeued, dump_days, load_days, merge_upd,
  merge_events_from_queue, save_snapshot, load_snapshot, open_db, close_db,
}
use contentv.Ldb.UrlsDaysDb.Conserved.{IsTimely, IsKept, known, visits-merge_events_from_queue}

put_days-append : (days m : Dict ℕ) → IsUnique (m ++ days) → put_days days m ≡ m ++ days
unfolding put_days
put_days-append [] m u = sym (append-nil m)
put_days-append ((day, n) ∷ days) m u =
    ap (put_days days) (insert_new day n m days u)
    ∙ (put_days-append days (m ++ (day, n) ∷ [])
          (subst IsUnique (sym (append_assoc m ((day, n) ∷ []) days)) u)
        ∙ append_assoc m ((day, n) ∷ []) days)

module _ (cal : Calendar) (codec : DaysCodec) (level : LevelDb) where
  open level use {Db, scan}

  load_days-serialize :
      (pb : UrlDaysPb)
      → load_days codec (codec.serialize pb)
        ≡ ok (record { url = pb.url; day_visits = put_days pb.url_days [] })
  unfolding load_days
  load_days-serialize pb = rw (codec.parse-serialize, load_days) refl

  -- The dump of a url's days loads, when no day stands twice.
  pub load_days-dump_days :
      (d : UrlDays) → IsUnique d.day_visits → load_days codec (dump_days codec d) ≡ ok d
  unfolding dump_days
  load_days-dump_days d u =
      load_days-serialize (record { url = d.url; url_days = d.day_visits })
      ∙ ap (λ (m : Dict ℕ). ok (record { url = d.url; day_visits = m }))
          (put_days-append d.day_visits [] u)

  IsTable-Reloads :
      (s : UrlsDays)
      → All (λ (e : String × UrlDays). IsUnique e.1.day_visits) s
      → Reloads (dump_days codec) (load_days codec) level s
  IsTable-Reloads [] t = tt
  IsTable-Reloads ((url, d) ∷ s) t = (load_days-dump_days d t.0, IsTable-Reloads s t.1)

  merge_upd-IsTable :
      (s : UrlsDaysDb Db) (upd : UrlsDays) (now : Tp)
      → IsTable cal s.urls_days
      → IsTable cal upd
      → IsTable cal (merge_upd cal codec level s upd now).urls_days
  unfolding merge_upd
  merge_upd-IsTable s [] now t u = t
  merge_upd-IsTable s (e ∷ upd) now t u = merge-IsTable cal s.urls_days (e ∷ upd) now t u

  merge_upd-db :
      (s : UrlsDaysDb Db) (upd : UrlsDays) (now : Tp)
      → (merge_upd cal codec level s upd now).db ≡ s.db
  unfolding merge_upd
  merge_upd-db s [] now = refl
  merge_upd-db s (e ∷ upd) now = refl

  -- After the program ends, which merges the queue and writes a snapshot, and starts again, each url
  -- with a visit on a day has the visits on that day that the table and the queue had, when the disk
  -- could be loaded before, no write of the snapshot fails and neither an event nor the day is too old
  -- to be kept.
  pub open_db-close_db :
      (latest : Tp) (s : UrlsDaysDb Db) (clock : ℕ → Tp) (now : Tp) (url day : String)
      → IsTable cal s.urls_days
      → All (Loads (dump_days codec) (load_days codec) level) (scan s.db)
      → IsKept cal codec level latest day
      → All (IsTimely cal codec level latest) s.q
      → ((i : ℕ) → clock i ≤ latest)
      → now ≤ latest
      → 1 ≤ known cal codec level url day s
      → let m = merge_events_from_queue cal codec level s clock now in
        (put_all (dump_days codec) (load_days codec) level m.urls_days m.db).0 ≡ true
        → (s' : UrlsDaysDb Db) × (open_db cal codec level (close_db cal codec level s clock now)
            ≡ ok s')
          × (visits url day s'.urls_days ≡ known cal codec level url day s)
  unfolding open_db load_snapshot close_db save_snapshot merge_events_from_queue
  open_db-close_db latest s clock now url day t a k q c n h w =
      let m = merge_events_from_queue cal codec level s clock now in
      let upd = add_events cal [] (dequeued s.q clock) in
      let start : UrlsDaysDb Db = record s { q = []; merge_finished = false } in
      let table : IsTable cal m.urls_days =
        merge_upd-IsTable start upd now t
          (add_events-IsTable cal [] (dequeued s.q clock) (tt, tt)) in
      let merged =
        (visits-merge_events_from_queue cal codec level latest s clock now url day k q c n).0 in
      let found = find-visits url day m.urls_days (subst (λ v. 1 ≤ v) (sym merged) h) in
      let loaded =
        load_all-put_all (dump_days codec) (load_days codec) level m.urls_days m.db url found.0
          table.0 (IsTable-Reloads m.urls_days table.1)
          (subst (λ d. All (Loads (dump_days codec) (load_days codec) level) (scan d))
            (sym (merge_upd-db start upd now)) a)
          found.1 w in
      (
        record {
          urls_days = loaded.0;
          q = [];
          merge_finished = false;
          db = close_db cal codec level s clock now;
        },
        ap
            (λ (r : Result UrlsDays). r >>= λ u. ok (record {
              urls_days = u;
              q = [];
              merge_finished = false;
              db = close_db cal codec level s clock now;
            }))
            (loaded.1),
        visits_found url day found.0 loaded.0 (loaded.2)
            ∙ (sym (visits_found url day found.0 m.urls_days found.1) ∙ merged),
      )
