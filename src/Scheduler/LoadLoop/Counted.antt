-- ===== src/Scheduler/LoadLoop/Counted.antt =====
-- src/scheduler/default/LoadLoop.cpp and Scheduler.cpp: every visit that is read is counted.
use contentv.Prelude.{
  ℕ, suc, ◌+◌, ◌≤◌, ◌≡◌, refl, sym, ap, ◌∙◌, String, List, [], ◌∷◌, ◌++◌, ◌&&◌, arith, All,
  All-append, keep, length, length-append, map, str_eq,
}
use contentv.Prelude.Dict.{Dict}
use mathlib.Core.List.{append-nil, append_assoc}
use contentv.Core.Time.{Tp}
use contentv.Core.FreqMap.{UrlTpStat, of_visit}
use contentv.Core.FreqStatsLf.{UrlFreqStatsLf, insert, insert_visits_pack}
use contentv.Misc.{MergeQueue}
use contentv.Ldb.Store.{LevelDb}
use contentv.Ldb.UrlsDays.{Calendar, UrlsDays, to_utsv, iterate_all}
use contentv.Ldb.UrlsDays.Counts.{visits}
use contentv.Ldb.UrlsDays.Table.{count_in, total_in}
use contentv.Ldb.UrlsDaysDb.{DaysCodec, UrlsDaysDb, save_visit, merge_events_from_queue}
use contentv.Ldb.UrlsDaysDb.Conserved.{
  IsTimely, IsKept, known, total_in-append, visits-merge_events_from_queue,
}
use contentv.Scheduler.LoadLoop.{
  Handed, LoadState, on_visit, load_impl, fill_utsv, fill_all, fill_url_freq_stats,
}

module _ (mq : MergeQueue UrlTpStat) (cal : Calendar) (codec : DaysCodec) (level : LevelDb) where
  -- The visits as packs of one.
  abbrev pub packs : List Handed → List UrlTpStat
  packs = map (λ h. of_visit h.visit)

  -- The visits of the url on the day.
  abbrev pub read : String → String → List Handed → List Handed
  read url day = keep (λ h. str_eq h.visit.url url && str_eq (cal.get_day_str h.visit.tp) day)

  pub total_in-packs :
      (url day : String) (hs : List Handed)
      → total_in cal url day (packs hs) ≡ length (read url day hs)
  unfolding total_in count_in of_visit
  total_in-packs url day [] = refl
  total_in-packs url day (h ∷ hs) = ground (arith, total_in-packs url day hs)

  -- What a round of the load loop leaves.
  load_impl_lem :
      (s : LoadState mq cal codec level) (hs : List Handed)
      → let r = load_impl mq cal codec level s hs in
        (r.1 ≡ length hs)
        × (r.0.urls_days_db ≡ record s.urls_days_db { q = s.urls_days_db.q ++ packs hs })
        × (mq.waiting r.0.url_freq_stats.queue ≡ mq.waiting s.url_freq_stats.queue ++ packs hs)
  unfolding load_impl on_visit insert save_visit
  load_impl_lem s [] = (
    refl,
    ap (λ l. record s.urls_days_db { q = l }) (sym (append-nil s.urls_days_db.q)),
    sym (append-nil _),
  )
  load_impl_lem s (h ∷ hs) =
      let ih = load_impl_lem (on_visit mq cal codec level s h) hs in
      (
        ap suc ih.0,
        ih.1
            ∙ ap (λ l. record s.urls_days_db { q = l })
                (append_assoc s.urls_days_db.q (of_visit h.visit ∷ []) (packs hs)),
        ih.2
            ∙ (ap (λ l. l ++ packs hs) (mq.waiting-push s.url_freq_stats.queue (of_visit h.visit))
                ∙ append_assoc (mq.waiting s.url_freq_stats.queue) (of_visit h.visit ∷ [])
                    (packs hs)),
      )

  known-append :
      (d : UrlsDaysDb level.Db) (hs : List Handed) (url day : String)
      → known cal codec level url day (record d { q = d.q ++ packs hs })
        ≡ known cal codec level url day d + length (read url day hs)
  unfolding known
  known-append d hs url day =
      omega
        (arith, total_in-append cal codec level url day d.q (packs hs), total_in-packs url day hs)

  packs-IsTimely :
      (latest : Tp) (hs : List Handed)
      → All (λ h. IsTimely cal codec level latest (of_visit h.visit)) hs
      → All (IsTimely cal codec level latest) (packs hs)
  packs-IsTimely latest [] t = tt
  packs-IsTimely latest (h ∷ hs) t = (t.0, packs-IsTimely latest hs t.1)

  -- A round of the load loop counts the visits that it reads and puts each of them, in order, into the
  -- queue of the frequencies; and after the next merge the table by day has for each url and day
  -- what it knew before and the number of the visits of that url on that day, when no visit and not
  -- the day is too old to be kept.
  pub load_impl-counted :
      (latest : Tp) (s : LoadState mq cal codec level) (hs : List Handed) (clock : ℕ → Tp)
      (now : Tp) (url day : String)
      → IsKept cal codec level latest day
      → All (IsTimely cal codec level latest) s.urls_days_db.q
      → All (λ h. IsTimely cal codec level latest (of_visit h.visit)) hs
      → ((i : ℕ) → clock i ≤ latest)
      → now ≤ latest
      → let r = load_impl mq cal codec level s hs in
        (r.1 ≡ length hs)
        × (mq.waiting r.0.url_freq_stats.queue ≡ mq.waiting s.url_freq_stats.queue ++ packs hs)
        × (visits url day
              (merge_events_from_queue cal codec level r.0.urls_days_db clock now).urls_days
            ≡ known cal codec level url day s.urls_days_db + length (read url day hs))
  load_impl-counted latest s hs clock now url day k q t c n =
      let l = load_impl_lem s hs in
      let d = record s.urls_days_db { q = s.urls_days_db.q ++ packs hs } in
      let m =
        visits-merge_events_from_queue cal codec level latest d clock now url day k
          (All-append (IsTimely cal codec level latest) s.urls_days_db.q (packs hs) q
            (packs-IsTimely latest hs t))
          c n in
      (
        l.0,
        l.2,
        ap (λ d. visits url day (merge_events_from_queue cal codec level d clock now).urls_days)
              (l.1)
            ∙ (m.0 ∙ known-append s.urls_days_db hs url day),
      )

  abbrev pub day_pack : String → String × ℕ → UrlTpStat
  day_pack url e = record { url = url; tp = cal.tp_from_day_str e.0; cnt = e.1 }

  -- The packs of the table: one for each day of each entry, with the url that the entry knows.
  unfoldable pub stored : UrlsDays → List UrlTpStat
  stored [] = []
  stored ((url, d) ∷ s) = map (day_pack d.url) d.day_visits ++ stored s

  fill_utsv_lem :
      (s : UrlFreqStatsLf mq) (url : String) (days : Dict ℕ) (now : Tp)
      → let r = fill_utsv mq cal codec level s (to_utsv cal url days) now in
        let us = map (λ (e : String × ℕ). day_pack url e) days in
        (mq.waiting r.0.queue ≡ mq.waiting s.queue ++ us) × (r.1 ≡ length us)
  unfolding fill_utsv to_utsv insert_visits_pack
  fill_utsv_lem s url [] now = (sym (append-nil (mq.waiting s.queue)), refl)
  fill_utsv_lem s url ((day, cnt) ∷ days) now =
      let ih = fill_utsv_lem (insert_visits_pack mq s (day_pack url (day, cnt)) now) url days now in
      (
        ih.0
            ∙ (ap (λ l. l ++ map (day_pack url) days)
                  (mq.waiting-push s.queue (day_pack url (day, cnt)))
                ∙ append_assoc (mq.waiting s.queue) (day_pack url (day, cnt) ∷ [])
                    (map (day_pack url) days)),
        ap suc ih.1,
      )

  fill_all_lem :
      (s : UrlFreqStatsLf mq) (t : UrlsDays) (now : Tp)
      → let r = fill_all mq cal codec level s (iterate_all cal t) now in
        (mq.waiting r.0.queue ≡ mq.waiting s.queue ++ stored t) × (r.1 ≡ length (stored t))
  unfolding fill_all iterate_all stored
  fill_all_lem s [] now = (sym (append-nil (mq.waiting s.queue)), refl)
  fill_all_lem s ((url, d) ∷ t) now =
      let here = fill_utsv_lem s d.url d.day_visits now in
      let f = fill_utsv mq cal codec level s (to_utsv cal d.url d.day_visits) now in
      let rest = fill_all_lem f.0 t now in
      let us = map (day_pack d.url) d.day_visits in
      (
        rest.0 ∙ (ap (λ l. l ++ stored t) here.0 ∙ append_assoc (mq.waiting s.queue) us (stored t)),
        omega (arith, rest.1, here.1, length-append us (stored t)),
      )

  -- Filling the frequencies at the start puts one pack into their queue for each day of each url of
  -- the table, with its count, and returns their number.
  pub fill_url_freq_stats_lem :
      (d : UrlsDaysDb level.Db) (s : UrlFreqStatsLf mq) (now : Tp)
      → let r = fill_url_freq_stats mq cal codec level d s now in
        (mq.waiting r.0.queue ≡ mq.waiting s.queue ++ stored d.urls_days)
        × (r.1 ≡ length (stored d.urls_days))
  unfolding fill_url_freq_stats
  fill_url_freq_stats_lem d s now = fill_all_lem s d.urls_days now
