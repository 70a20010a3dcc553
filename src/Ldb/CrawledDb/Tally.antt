-- ===== src/Ldb/CrawledDb/Tally.antt =====
-- src/ldb/CrawledDb.cpp: what the saved results add up to under the made-up urls.
use contentv.Prelude.{
  ℕ, suc, ◌+◌, ◌≡◌, refl, ap, ◌∙◌, String, List, [], ◌∷◌, arith, All, str_eq, eq_iff, Bool-cases,
  inl, inr, ◌==◌, ltb, length, if◌then◌else◌,
}
use contentv.Core.Time.{Tp}
use contentv.Core.Attempts.{
  AttemptStatus, enqueued, pending, fetched, curl_err, status_4xx, status_5xx, unrecognized,
}
use contentv.Core.Records.{FetchResult}
use contentv.Core.FreqMap.{UrlTpStat}
use contentv.Ldb.UrlsDays.{Calendar}
use contentv.Ldb.UrlsDays.Table.{total_in, count_in}
use contentv.Ldb.UrlsDaysDb.{DaysCodec}
use contentv.Ldb.Store.{LevelDb}
use contentv.Ldb.UrlsDaysDb.Conserved.{total_in-append}
use contentv.Ldb.CrawledDb.{
  gen_fake_url_for_result, save_result, count_status, count_statuses, save_counts, on_fetched,
  status_number,
}
use contentv.Ldb.CrawledDb.Counts.{sum_counts, sum_counts-count_statuses}

-- The fetch has ended, with success or without.
abbrev pub IsFinished : AttemptStatus → Type 0
IsFinished fetched = Unit
IsFinished curl_err = Unit
IsFinished status_4xx = Unit
IsFinished status_5xx = Unit
IsFinished _ = ⊥

-- All the results have ended.
abbrev pub AllFinished : List FetchResult → Type 0
AllFinished = All (λ (r : FetchResult). IsFinished r.status)

module _ (cal : Calendar) (codec : DaysCodec) (level : LevelDb) (today : String) where
  -- What the events say of the status with that number today.
  abbrev pub tally : ℕ → List UrlTpStat → ℕ
  tally id q = total_in cal (gen_fake_url_for_result id) today q

  abbrev pub finished_tally : List UrlTpStat → ℕ
  finished_tally q = tally 2 q + (tally 3 q + (tally 4 q + tally 5 q))

  abbrev IsToday : Tp → Type 0
  IsToday now = cal.get_day_str now ≡ today

  count_in_today :
      (url : String) (e : UrlTpStat)
      → IsToday e.tp
      → count_in cal url today e ≡ (if str_eq e.url url then e.cnt else 0)
  unfolding count_in
  count_in_today url e h =
      ap (λ day. if str_eq e.url url then (if str_eq day today then e.cnt else 0) else 0) h
      ∙ ap (λ b. if str_eq e.url url then (if b then e.cnt else 0) else 0)
          ((eq_iff today today).1 refl)

  tally-save_result :
      (id : ℕ) (q : List UrlTpStat) (s : AttemptStatus) (n : ℕ) (now : Tp)
      → IsToday now
      → tally id (save_result q s n now)
        ≡ tally id q
          + (if str_eq (gen_fake_url_for_result (status_number s)) (gen_fake_url_for_result id)
              then n
              else 0)
  unfolding save_result total_in
  tally-save_result id q s n now e =
      let url = gen_fake_url_for_result in
      let event : UrlTpStat = record { url = url (status_number s); tp = now; cnt = n } in
      omega (
        arith,
        total_in-append cal codec level (url id) today q (event ∷ []),
        count_in_today (url id) event e,
      )

  -- Enqueued urls count under their own number only.
  pub tally-enqueued :
      (q : List UrlTpStat) (n : ℕ) (now : Tp)
      → IsToday now
      → (tally 0 (save_result q enqueued n now) ≡ tally 0 q + n)
        × (finished_tally (save_result q enqueued n now) ≡ finished_tally q)
  unfolding gen_fake_url_for_result
  tally-enqueued q n now e =
      let t = λ (id : ℕ). tally-save_result id q enqueued n now e in
      (omega (arith, t 0), omega (arith, t 2, t 3, t 4, t 5))

  finished_tally-save_result :
      (q : List UrlTpStat) (s : AttemptStatus) (n : ℕ) (now : Tp)
      → IsToday now
      → IsFinished s
      → (tally 0 (save_result q s n now) ≡ tally 0 q)
        × (finished_tally (save_result q s n now) ≡ finished_tally q + n)
  unfolding gen_fake_url_for_result
  finished_tally-save_result q fetched n now e f =
      let t = λ (id : ℕ). tally-save_result id q fetched n now e in
      (omega (arith, t 0), omega (arith, t 2, t 3, t 4, t 5))
  finished_tally-save_result q curl_err n now e f =
      let t = λ (id : ℕ). tally-save_result id q curl_err n now e in
      (omega (arith, t 0), omega (arith, t 2, t 3, t 4, t 5))
  finished_tally-save_result q status_4xx n now e f =
      let t = λ (id : ℕ). tally-save_result id q status_4xx n now e in
      (omega (arith, t 0), omega (arith, t 2, t 3, t 4, t 5))
  finished_tally-save_result q status_5xx n now e f =
      let t = λ (id : ℕ). tally-save_result id q status_5xx n now e in
      (omega (arith, t 0), omega (arith, t 2, t 3, t 4, t 5))
  finished_tally-save_result q enqueued n now e f = elim f [ ]
  finished_tally-save_result q pending n now e f = elim f [ ]
  finished_tally-save_result q (unrecognized _) n now e f = elim f [ ]

  save_counts-tally :
      (q : List UrlTpStat) (m : List (AttemptStatus × ℕ)) (clock : ℕ → Tp)
      → ((i : ℕ) → IsToday (clock i))
      → All (λ (e : AttemptStatus × ℕ). IsFinished e.0) m
      → (tally 0 (save_counts q m clock) ≡ tally 0 q)
        × (finished_tally (save_counts q m clock) ≡ finished_tally q + sum_counts m)
  unfolding save_counts sum_counts
  save_counts-tally q [] clock c f = (refl, omega arith)
  save_counts-tally q ((s, n) ∷ m) clock c f =
      let one = finished_tally-save_result q s n (clock 0) (c 0) f.0 in
      let ih =
        save_counts-tally (save_result q s n (clock 0)) m (λ i. clock (suc i)) (λ i. c (suc i))
          f.1 in
      (ih.0 ∙ one.0, omega (arith, ih.1, one.1))

  count_status-IsFinished :
      (s : AttemptStatus) (m : List (AttemptStatus × ℕ))
      → IsFinished s
      → All (λ (e : AttemptStatus × ℕ). IsFinished e.0) m
      → All (λ (e : AttemptStatus × ℕ). IsFinished e.0) (count_status s m)
  unfolding count_status
  count_status-IsFinished s [] f h = (f, tt)
  count_status-IsFinished s ((t, n) ∷ m) f h =
      elim (Bool-cases (status_number t == status_number s)) [
        | inl e ↦ rw (e, count_status) (h.0, h.1)
        | inr e ↦ elim (Bool-cases (ltb (status_number s) (status_number t))) [
          | inl l ↦ rw (e, l, count_status) (f, (h.0, h.1))
          | inr l ↦ rw (e, l, count_status) (h.0, count_status-IsFinished s m f h.1)
        ]
      ]

  count_statuses-IsFinished :
      (rs : List FetchResult) (m : List (AttemptStatus × ℕ))
      → AllFinished rs
      → All (λ (e : AttemptStatus × ℕ). IsFinished e.0) m
      → All (λ (e : AttemptStatus × ℕ). IsFinished e.0) (count_statuses rs m)
  unfolding count_statuses
  count_statuses-IsFinished [] m f h = h
  count_statuses-IsFinished (r ∷ rs) m f h =
      count_statuses-IsFinished rs (count_status r.status m) f.1
        (count_status-IsFinished r.status m f.0 h)

  -- Each result that has ended counts once under the number of its status.
  pub on_fetched-tally :
      (q : List UrlTpStat) (rs : List FetchResult) (clock : ℕ → Tp)
      → ((i : ℕ) → IsToday (clock i))
      → AllFinished rs
      → (tally 0 (on_fetched q rs clock) ≡ tally 0 q)
        × (finished_tally (on_fetched q rs clock) ≡ finished_tally q + length rs)
  unfolding on_fetched sum_counts
  on_fetched-tally q rs clock c f =
      let t =
        save_counts-tally q (count_statuses rs []) clock c (count_statuses-IsFinished rs [] f tt) in
      (t.0, omega (arith, t.1, sum_counts-count_statuses rs []))
