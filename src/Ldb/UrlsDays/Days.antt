-- ===== src/Ldb/UrlsDays/Days.antt =====
-- src/ldb/UrlsDays.h: the days that a table has are those of the events that went into it.
use contentv.Prelude.{
  ℕ, ◌-◌, String, List, [], ◌∷◌, Bool, arith, ltb, keep, All, Bool-cases, Option-cases, inl, inr,
}
use contentv.Prelude.Dict.{Dict, find, insert, All-insert, find-All}
use contentv.Core.Time.{Tp}
use contentv.Core.FreqMap.{UrlTpStat, add_count, merge_counts}
use contentv.Ldb.UrlsDays.{
  Calendar, UrlDays, UrlsDays, duration, days_at, days_or_new, check_clean, add, add_events,
  merge_days, merge,
}

All-keep :
    (P : String × ℕ → Type 0) (p : String × ℕ → Bool) (m : Dict ℕ) → All P m → All P (keep p m)
All-keep P p [] h = tt
All-keep P p (x ∷ m) h = ground (arith, All-keep P p m h.1)

-- The days all have the property.
abbrev pub AllDays : (String → Type 0) → Dict ℕ → Type 0
AllDays P = All (λ (e : String × ℕ). P e.0)

abbrev pub AllDaysOf : (String → Type 0) → UrlsDays → Type 0
AllDaysOf P = All (λ (e : String × UrlDays). AllDays P e.1.day_visits)

module _ (cal : Calendar) (P : String → Type 0) where
  merge_counts-AllDays : (m a : Dict ℕ) → AllDays P m → AllDays P a → AllDays P (merge_counts m a)
  unfolding merge_counts add_count
  merge_counts-AllDays m [] h k = h
  merge_counts-AllDays m ((day, n) ∷ a) h k =
      merge_counts-AllDays (add_count day n m) a
        (All-insert (λ (e : String × ℕ). P e.0) day _ m k.0 h) k.1

  merge_days-AllDays :
      (d e : UrlDays) (now : Tp)
      → AllDays P d.day_visits
      → AllDays P e.day_visits
      → AllDays P (merge_days cal d e now).day_visits
  unfolding merge_days check_clean
  merge_days-AllDays d e now h k = go d.url d.day_visits h
    where
      go :
          (url : String) (m : Dict ℕ)
          → AllDays P m
          → AllDays P (merge_days cal (record { url = url; day_visits = m }) e now).day_visits
      go url [] h = k
      go url (x ∷ m) h =
          All-keep (λ (e : String × ℕ). P e.0) _ _ (merge_counts-AllDays (x ∷ m) e.day_visits h k)

  days_at-AllDays :
      (url : String) (s : UrlsDays) → AllDaysOf P s → AllDays P (days_at url s).day_visits
  unfolding days_at
  days_at-AllDays url s h = elim (Option-cases (find url s)) [
    | inl e ↦ rw (e, days_at) tt
    | inr (d, e) ↦
        rw (e, days_at) (find-All (λ (e : String × UrlDays). AllDays P e.1.day_visits) url d s h e)
  ]

  days_or_new-AllDays :
      (url : String) (s : UrlsDays) → AllDaysOf P s → AllDays P (days_or_new url s).day_visits
  unfolding days_or_new
  days_or_new-AllDays url s h = elim (Option-cases (find url s)) [
    | inl e ↦ rw (e, days_or_new) tt
    | inr (d, e) ↦
        rw (e, days_or_new)
          (find-All (λ (e : String × UrlDays). AllDays P e.1.day_visits) url d s h e)
  ]

  pub merge-AllDaysOf :
      (s a : UrlsDays) (now : Tp) → AllDaysOf P s → AllDaysOf P a → AllDaysOf P (merge cal s a now)
  unfolding merge
  merge-AllDaysOf s [] now h k = h
  merge-AllDaysOf s ((url, e) ∷ a) now h k =
      merge-AllDaysOf (insert url (merge_days cal (days_at url s) e now) s) a now
        (All-insert (λ (e : String × UrlDays). AllDays P e.1.day_visits) url _ s
          (merge_days-AllDays (days_at url s) e now (days_at-AllDays url s h) k.0) h)
        k.1

  add-AllDaysOf :
      (s : UrlsDays) (uts : UrlTpStat) (now : Tp)
      → P (cal.get_day_str uts.tp)
      → AllDaysOf P s
      → AllDaysOf P (add cal s uts now)
  unfolding add check_clean add_count
  add-AllDaysOf s uts now p h = elim (Bool-cases (ltb duration (now - uts.tp))) [
    | inl e ↦ rw e h
    | inr e ↦ rw e (
        All-insert (λ (e : String × UrlDays). AllDays P e.1.day_visits) uts.url _ s
          (All-keep (λ (e : String × ℕ). P e.0) _ _
            (All-insert (λ (e : String × ℕ). P e.0) (cal.get_day_str uts.tp) _
              (days_or_new uts.url s).day_visits p (days_or_new-AllDays uts.url s h)))
          h)
  ]

  pub add_events-AllDaysOf :
      (s : UrlsDays) (events : List (UrlTpStat × Tp))
      → All (λ (e : UrlTpStat × Tp). P (cal.get_day_str e.0.tp)) events
      → AllDaysOf P s
      → AllDaysOf P (add_events cal s events)
  unfolding add_events
  add_events-AllDaysOf s [] p h = h
  add_events-AllDaysOf s ((uts, now) ∷ events) p h =
      add_events-AllDaysOf (add cal s uts now) events p.1 (add-AllDaysOf s uts now p.0 h)
