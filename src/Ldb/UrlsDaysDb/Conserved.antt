-- ===== src/Ldb/UrlsDaysDb/Conserved.antt =====
-- src/ldb/UrlsDaysDb.cpp: no visit is lost between the queue and the table.
use contentv.Prelude.{
  ℕ, suc, ◌+◌, ◌≤◌, ◌≡◌, refl, sym, ap, subst, String, List, [], ◌∷◌, ◌++◌, false, arith, All,
  All-append, map,
}
use contentv.Core.Time.{Tp}
use contentv.Core.FreqMap.{UrlTpStat, of_visit}
use contentv.Ldb.Store.{LevelDb}
use contentv.Ldb.UrlsDays.{Calendar, UrlsDays, duration, add_events}
use contentv.Ldb.UrlsDays.Counts.{visits, is_old}
use contentv.Ldb.UrlsDays.Visits.{visits_nil, visits-merge, IsTable}
use contentv.Ldb.UrlsDays.Table.{total_in, IsRecent, add_events-IsTable, visits-add_events}
use contentv.Ldb.UrlsDaysDb.{
  UrlsDaysDb, DaysCodec, dequeued, merge_upd, merge_events_from_queue, save_visit, save_visits_pack,
  save_snapshot, Op, visit, pack, merged, snapshot, step, run,
}

map-dequeued :
    (q : List UrlTpStat) (clock : ℕ → Tp) → map (λ (e : UrlTpStat × Tp). e.0) (dequeued q clock) ≡ q
unfolding dequeued
map-dequeued [] clock = refl
map-dequeued (e ∷ q) clock = ap (λ l. e ∷ l) (map-dequeued q (λ i. clock (suc i)))

module _ (cal : Calendar) (codec : DaysCodec) (level : LevelDb) where
  open level use {Db}

  pub total_in-append :
      (url day : String) (q r : List UrlTpStat)
      → total_in cal url day (q ++ r) ≡ total_in cal url day q + total_in cal url day r
  unfolding total_in
  total_in-append url day [] r = omega arith
  total_in-append url day (e ∷ q) r = omega (arith, total_in-append url day q r)

  -- At no time up to `latest` is the event too old to be counted.
  abbrev pub IsTimely : Tp → UrlTpStat → Type 0
  IsTimely latest e = latest ≤ e.tp + duration

  -- An operation with timely events that reads no time after `latest`.
  abbrev pub IsTimelyOp : Tp → Op cal codec level → Type 0
  IsTimelyOp latest (visit v) = IsTimely latest (of_visit v)
  IsTimelyOp latest (pack e) = IsTimely latest e
  IsTimelyOp latest (merged clock now) = ((i : ℕ) → clock i ≤ latest) × (now ≤ latest)
  IsTimelyOp latest snapshot = Unit

  -- The day is kept at every time up to `latest`.
  abbrev pub IsKept : Tp → String → Type 0
  IsKept latest day = (now : Tp) → now ≤ latest → is_old cal now day ≡ false

  -- The visits that the operations save.
  unfoldable pub saved : List (Op cal codec level) → List UrlTpStat
  unfolding of_visit
  saved [] = []
  saved (visit v ∷ ops) = of_visit v ∷ saved ops
  saved (pack e ∷ ops) = e ∷ saved ops
  saved (merged clock now ∷ ops) = saved ops
  saved (snapshot ∷ ops) = saved ops

  -- The visits of the url on the day, those that still wait in the queue included.
  unfoldable pub known : String → String → UrlsDaysDb Db → ℕ
  known url day s = visits url day s.urls_days + total_in cal url day s.q

  dequeued-IsRecent :
      (latest : Tp) (day : String) (q : List UrlTpStat) (clock : ℕ → Tp)
      → IsKept latest day
      → All (IsTimely latest) q
      → ((i : ℕ) → clock i ≤ latest)
      → All (IsRecent cal day) (dequeued q clock)
  unfolding dequeued
  dequeued-IsRecent latest day [] clock k t c = tt
  dequeued-IsRecent latest day (e ∷ q) clock k t c = (
    (ground (arith, t.0, c 0), k (clock 0) (c 0)),
    dequeued-IsRecent latest day q (λ i. clock (suc i)) k t.1 (λ i. c (suc i)),
  )

  visits-merge_upd :
      (s : UrlsDaysDb Db) (upd : UrlsDays) (now : Tp) (url day : String)
      → IsTable cal upd
      → is_old cal now day ≡ false
      → visits url day (merge_upd cal codec level s upd now).urls_days
        ≡ visits url day s.urls_days + visits url day upd
  unfolding merge_upd
  visits-merge_upd s [] now url day t k = omega (arith, visits_nil cal url day)
  visits-merge_upd s (e ∷ upd) now url day t k =
      visits-merge cal s.urls_days (e ∷ upd) now url day t k

  merge_upd-q :
      (s : UrlsDaysDb Db) (upd : UrlsDays) (now : Tp)
      → (merge_upd cal codec level s upd now).q ≡ s.q
  unfolding merge_upd
  merge_upd-q s [] now = refl
  merge_upd-q s (e ∷ upd) now = refl

  -- A merge moves the queued visits into the table.
  pub visits-merge_events_from_queue :
      (latest : Tp) (s : UrlsDaysDb Db) (clock : ℕ → Tp) (now : Tp) (url day : String)
      → IsKept latest day
      → All (IsTimely latest) s.q
      → ((i : ℕ) → clock i ≤ latest)
      → now ≤ latest
      → (visits url day (merge_events_from_queue cal codec level s clock now).urls_days
          ≡ known url day s)
        × ((merge_events_from_queue cal codec level s clock now).q ≡ [])
  unfolding merge_events_from_queue known
  visits-merge_events_from_queue latest s clock now url day k t c n =
      let events = dequeued s.q clock in
      let upd = add_events cal [] events in
      let added =
        visits-add_events cal [] events url day (dequeued-IsRecent latest day s.q clock k t c) in
      let total = ap (total_in cal url day) (map-dequeued s.q clock) in
      let moved =
        visits-merge_upd (record s { q = []; merge_finished = false }) upd now url day
          (add_events-IsTable cal [] events (tt, tt)) (k now n) in
      (omega (arith, moved, added, total, visits_nil cal url day), merge_upd-q _ upd now)

  -- What a step saves is known after it, and nothing else changes what is known.
  known-step :
      (latest : Tp) (o : Op cal codec level) (s : UrlsDaysDb Db) (url day : String)
      → IsKept latest day
      → All (IsTimely latest) s.q
      → IsTimelyOp latest o
      → (known url day (step cal codec level o s)
          ≡ known url day s + total_in cal url day (saved (o ∷ [])))
        × All (IsTimely latest) (step cal codec level o s).q
  unfolding step save_visit save_visits_pack known saved save_snapshot total_in
  known-step latest (visit v) s url day k q t = (
    omega (arith, total_in-append url day s.q (of_visit v ∷ [])),
    All-append (IsTimely latest) s.q (of_visit v ∷ []) q (t, tt),
  )
  known-step latest (pack e) s url day k q t = (
    omega (arith, total_in-append url day s.q (e ∷ [])),
    All-append (IsTimely latest) s.q (e ∷ []) q (t, tt),
  )
  known-step latest (merged clock now) s url day k q t =
      let m = visits-merge_events_from_queue latest s clock now url day k q t.0 t.1 in
      (
        omega (arith, m.0, ap (total_in cal url day) m.1),
        subst (All (IsTimely latest)) (sym m.1) tt,
      )
  known-step latest snapshot s url day k q t = (omega arith, q)

  total_in-saved :
      (url day : String) (o : Op cal codec level) (ops : List (Op cal codec level))
      → total_in cal url day (saved (o ∷ ops))
        ≡ total_in cal url day (saved (o ∷ [])) + total_in cal url day (saved ops)
  unfolding total_in saved
  total_in-saved url day (visit v) ops = omega arith
  total_in-saved url day (pack e) ops = omega arith
  total_in-saved url day (merged clock now) ops = omega arith
  total_in-saved url day snapshot ops = omega arith

  -- Whatever visits are saved and whenever the queue is merged, the visits of a url on a day, in the
  -- table and in the queue together, are those at the start and those that were saved since, when no
  -- event and not the day is too old to be kept.
  pub known-run :
      (latest : Tp) (ops : List (Op cal codec level)) (s : UrlsDaysDb Db) (url day : String)
      → IsKept latest day
      → All (IsTimely latest) s.q
      → All (IsTimelyOp latest) ops
      → known url day (run cal codec level ops s)
        ≡ known url day s + total_in cal url day (saved ops)
  unfolding run saved total_in
  known-run latest [] s url day k q t = omega arith
  known-run latest (o ∷ ops) s url day k q t =
      let h = known-step latest o s url day k q t.0 in
      omega (
        arith,
        known-run latest ops (step cal codec level o s) url day k h.1 t.1,
        h.0,
        total_in-saved url day o ops,
      )
