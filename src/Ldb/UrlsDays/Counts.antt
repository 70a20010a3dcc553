-- ===== src/Ldb/UrlsDays/Counts.antt =====
-- src/ldb/UrlsDays.h: the count of a url's visits on a day, and what `add` does to it.
use contentv.Prelude.{
  ℕ, ◌+◌, ◌-◌, ◌≡◌, ◌≤◌, refl, ap, ◌∙◌, String, none, some, Bool, not, arith, ltb, str_eq, eq_iff,
  if◌then◌else◌, Bool-cases, Option-cases, inl, inr,
}
use contentv.Prelude.Dict.{Dict, find, insert, find-insert, find-keep}
use contentv.Core.Time.{Tp}
use contentv.Core.FreqMap.{UrlTpStat, count_of, add_count}
use contentv.Core.FreqMap.Counts.{count_of-add_count}
use contentv.Ldb.UrlsDays.{
  Calendar, str_lt, UrlDays, UrlsDays, no_days, duration, days_at, days_or_new, check_clean, add,
}

-- The visits of the url on the day.
unfoldable pub visits : String → String → UrlsDays → ℕ
unfolding days_at count_of
visits url day s = count_of day (days_at url s).day_visits

pub days_at-insert :
    (k u : String) (d : UrlDays) (s : UrlsDays)
    → days_at u (insert k d s) ≡ (if str_eq k u then d else days_at u s)
unfolding days_at
days_at-insert k u d s = ground (arith, find-insert k u d s)

days_or_new-visits :
    (u : String) (s : UrlsDays) → (days_or_new u s).day_visits ≡ (days_at u s).day_visits
unfolding days_at days_or_new
days_or_new-visits u s = elim (Option-cases (find u s)) [
  | inl e ↦ rw (e, days_or_new, days_at) refl
  | inr (d, e) ↦ rw (e, days_or_new, days_at) refl
]

pub days_at-none : (k : String) (s : UrlsDays) → find k s ≡ none → days_at k s ≡ no_days
unfolding days_at
days_at-none k s n = rw (n, days_at) refl

-- The visits of a url are those of its entry.
pub visits_found :
    (url day : String) (d : UrlDays) (s : UrlsDays)
    → find url s ≡ some d
    → visits url day s ≡ count_of day d.day_visits
unfolding visits days_at
visits_found url day d s e = rw (e, days_at) refl

pub visits-none : (url day : String) (s : UrlsDays) → find url s ≡ none → visits url day s ≡ 0
unfolding visits count_of find
visits-none url day s e = ap (λ (d : UrlDays). count_of day d.day_visits) (days_at-none url s e)

-- A url with a visit has an entry.
pub find-visits :
    (url day : String) (s : UrlsDays) → 1 ≤ visits url day s → (d : UrlDays) × (find url s ≡ some d)
find-visits url day s h = elim (Option-cases (find url s)) [
  | inl e ↦ absurd (omega (arith, h, visits-none url day s e))
  | inr t ↦ t
]

module _ (cal : Calendar) where
  -- The day is older than those that are kept at `now`.
  abbrev pub is_old : Tp → String → Bool
  is_old now day = str_lt day (cal.get_day_str (now - duration))

  pub count_of-check_clean :
      (now : Tp) (day : String) (m : Dict ℕ)
      → count_of day (check_clean cal now m) ≡ (if is_old now day then 0 else count_of day m)
  unfolding check_clean count_of
  count_of-check_clean now day m = ground (arith, find-keep (λ d. not (is_old now d)) day m)

  -- `add` of an event that is less than 13 days old adds its count to its url and its day, and drops
  -- the old days of that url; an older event changes nothing.
  pub visits-add :
      (s : UrlsDays) (uts : UrlTpStat) (now : Tp) (url day : String)
      → visits url day (add cal s uts now) ≡ (
          if ltb duration (now - uts.tp)
          then visits url day s
          else if str_eq uts.url url
          then (if is_old now day
              then 0
              else visits url day s + (if str_eq (cal.get_day_str uts.tp) day then uts.cnt else 0))
          else visits url day s)
  unfolding visits add
  visits-add s uts now url day = elim (Bool-cases (ltb duration (now - uts.tp))) [
    | inl e ↦ rw e refl
    | inr e ↦
        rw (e, days_at-insert)
          (elim (Bool-cases (str_eq uts.url url)) [
            | inl f ↦
                let u : (days_or_new uts.url s).day_visits ≡ (days_at url s).day_visits =
                  days_or_new-visits uts.url s
                  ∙ ap (λ v. (days_at v s).day_visits) ((eq_iff uts.url url).0 f) in
                rw (f, u)
                  (ground (
                    arith,
                    count_of-check_clean now day
                        (add_count (cal.get_day_str uts.tp) uts.cnt (days_at url s).day_visits),
                    count_of-add_count (cal.get_day_str uts.tp) day uts.cnt
                        (days_at url s).day_visits,
                  ))
            | inr f ↦ rw f refl
          ])
  ]
