-- ===== src/Ldb/UrlsDays/Table.antt =====
-- src/ldb/UrlsDays.h: a table in which every url and every day stands once, and what events add up
-- to in it.
use contentv.Prelude.{
  ℕ, ◌+◌, ◌-◌, ◌≡◌, ◌∙◌, String, List, [], ◌∷◌, false, not, map, arith, ltb, All, str_eq,
  if◌then◌else◌, Bool-cases, Option-cases, inl, inr,
}
use contentv.Prelude.Dict.{
  Dict, find, insert, IsUnique, insert-IsUnique, All-insert, find-All, keep-IsUnique,
}
use contentv.Core.Time.{Tp}
use contentv.Core.FreqMap.{UrlTpStat, add_count}
use contentv.Core.FreqMap.Merge.{merge_counts-IsUnique}
use contentv.Ldb.UrlsDays.{
  Calendar, UrlDays, UrlsDays, duration, str_lt, days_at, days_or_new, check_clean, add, add_events,
  merge_days, merge,
}
use contentv.Ldb.UrlsDays.Counts.{visits, visits-add, is_old}
use contentv.Ldb.UrlsDays.Visits.{IsTable}

module _ (cal : Calendar) where
  days_or_new-IsUnique :
      (url : String) (s : UrlsDays) → IsTable cal s → IsUnique (days_or_new url s).day_visits
  unfolding days_or_new
  days_or_new-IsUnique url s t = elim (Option-cases (find url s)) [
    | inl e ↦ rw (e, days_or_new) tt
    | inr (d, e) ↦
        rw (e, days_or_new)
          (find-All (λ (e : String × UrlDays). IsUnique e.1.day_visits) url d s t.1 e)
  ]

  add-IsTable :
      (s : UrlsDays) (uts : UrlTpStat) (now : Tp) → IsTable cal s → IsTable cal (add cal s uts now)
  unfolding add check_clean add_count
  add-IsTable s uts now t = elim (Bool-cases (ltb duration (now - uts.tp))) [
    | inl e ↦ rw e t
    | inr e ↦
        let d = days_or_new uts.url s in
        let days : IsUnique d.day_visits = days_or_new-IsUnique uts.url s t in
        let kept : IsUnique
            (check_clean cal now (add_count (cal.get_day_str uts.tp) uts.cnt d.day_visits)) =
          keep-IsUnique (λ k. not (str_lt k (cal.get_day_str (now - duration)))) _
            (insert-IsUnique (cal.get_day_str uts.tp) _ d.day_visits days) in
        rw e (
          insert-IsUnique uts.url _ s t.0,
          All-insert (λ (e : String × UrlDays). IsUnique e.1.day_visits) uts.url _ s kept t.1,
        )
  ]

  pub add_events-IsTable :
      (s : UrlsDays) (events : List (UrlTpStat × Tp))
      → IsTable cal s
      → IsTable cal (add_events cal s events)
  unfolding add_events
  add_events-IsTable s [] t = t
  add_events-IsTable s ((uts, now) ∷ events) t =
      add_events-IsTable (add cal s uts now) events (add-IsTable s uts now t)

  days_at-IsUnique :
      (url : String) (s : UrlsDays) → IsTable cal s → IsUnique (days_at url s).day_visits
  unfolding days_at
  days_at-IsUnique url s t = elim (Option-cases (find url s)) [
    | inl e ↦ rw (e, days_at) tt
    | inr (d, e) ↦
        rw (e, days_at) (find-All (λ (e : String × UrlDays). IsUnique e.1.day_visits) url d s t.1 e)
  ]

  merge_days-IsUnique :
      (url : String) (m : Dict ℕ) (e : UrlDays) (now : Tp)
      → IsUnique m
      → IsUnique e.day_visits
      → IsUnique (merge_days cal (record { url = url; day_visits = m }) e now).day_visits
  unfolding merge_days check_clean
  merge_days-IsUnique url [] e now u v = v
  merge_days-IsUnique url (x ∷ xs) e now u v =
      keep-IsUnique (λ k. not (str_lt k (cal.get_day_str (now - duration)))) _
        (merge_counts-IsUnique (x ∷ xs) e.day_visits u)

  pub merge-IsTable :
      (s a : UrlsDays) (now : Tp) → IsTable cal s → IsTable cal a → IsTable cal (merge cal s a now)
  unfolding merge
  merge-IsTable s [] now t u = t
  merge-IsTable s ((url, e) ∷ a) now t u =
      let d = days_at url s in
      let days : IsUnique (merge_days cal d e now).day_visits =
        merge_days-IsUnique d.url d.day_visits e now (days_at-IsUnique url s t) (u.1.0) in
      merge-IsTable (insert url (merge_days cal d e now) s) a now
        (
          insert-IsUnique url _ s t.0,
          All-insert (λ (e : String × UrlDays). IsUnique e.1.day_visits) url _ s days t.1,
        )
        (u.0.1, u.1.1)

  -- What an event counts for a url on a day.
  unfoldable pub count_in : String → String → UrlTpStat → ℕ
  count_in url day e =
      if str_eq e.url url then (if str_eq (cal.get_day_str e.tp) day then e.cnt else 0) else 0

  unfoldable pub total_in : String → String → List UrlTpStat → ℕ
  unfolding count_in
  total_in url day [] = 0
  total_in url day (e ∷ q) = count_in url day e + total_in url day q

  -- At `now` neither the event nor the day is too old to be kept.
  abbrev pub IsRecent : String → UrlTpStat × Tp → Type 0
  IsRecent day (e, now) = (ltb duration (now - e.tp) ≡ false) × (is_old cal now day ≡ false)

  visits-add_recent :
      (s : UrlsDays) (e : UrlTpStat) (now : Tp) (url day : String)
      → IsRecent day (e, now)
      → visits url day (add cal s e now) ≡ visits url day s + count_in url day e
  unfolding count_in
  visits-add_recent s e now url day r =
      visits-add cal s e now url day ∙ rw (r.0, r.1) (ground arith)

  pub visits-add_events :
      (s : UrlsDays) (events : List (UrlTpStat × Tp)) (url day : String)
      → All (IsRecent day) events
      → visits url day (add_events cal s events)
        ≡ visits url day s + total_in url day (map (λ (e : UrlTpStat × Tp). e.0) events)
  unfolding add_events total_in
  visits-add_events s [] url day r = omega arith
  visits-add_events s ((e, now) ∷ events) url day r = omega (
    arith,
    visits-add_events (add cal s e now) events url day r.1,
    visits-add_recent s e now url day r.0,
  )
