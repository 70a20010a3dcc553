-- ===== src/Ldb/UrlsDays.antt =====
-- src/ldb/UrlsDays.h: the number of visits of each url on each of the last days, and the loop
-- of src/ldb/UrlsDaysDb.cpp over queued events. The order of the days in a map is not modelled.
pub mod Counts
pub mod Visits
pub mod Table
pub mod Days
pub use contentv.Prelude.Text.{str_lt}
use contentv.Prelude.{
  ℕ, ◌+◌, ◌-◌, ◌*◌, String, List, [], ◌∷◌, Option, none, some, Bool, true, false, not, ltb, keep,
  length, if◌then◌else◌,
}
use contentv.Prelude.Dict.{Dict, find, insert}
use contentv.Core.Time.{Tp}
use contentv.Core.FreqMap.{UrlTpStat, count_of, add_count, merge_counts}

-- `misc::get_day_str` and `misc::tp_from_day_str`
pub record Calendar : Type 0 where
  pub get_day_str : Tp → String
  pub tp_from_day_str : String → Tp

-- `UrlDaysImpl`
pub record UrlDays : Type 0 where
  pub url : String
  pub day_visits : Dict ℕ

-- `m_urls_days`
abbrev pub UrlsDays : Type 0
UrlsDays = Dict UrlDays

-- The default constructor.
abbrev pub no_days : UrlDays
no_days = record { url = ""; day_visits = [] }

-- `std::chrono::days{DAYS - 1}` in nanoseconds, with the 14 days of `UrlsDaysDb`.
abbrev pub duration : ℕ
duration = 13 * 86400000000000

-- `toUTSV`
unfoldable pub to_utsv : Calendar → String → Dict ℕ → List UrlTpStat
to_utsv cal url [] = []
to_utsv cal url ((day, cnt) ∷ days) =
    record { url = url; tp = cal.tp_from_day_str day; cnt = cnt } ∷ to_utsv cal url days

-- `m_urls_days[url]`
unfoldable pub days_at : String → UrlsDays → UrlDays
days_at url s = elim (find url s) [ none ↦ no_days | some d ↦ d ]

-- The entry that `add` updates: a new one knows its url.
unfoldable pub days_or_new : String → UrlsDays → UrlDays
days_or_new url s = elim (find url s) [ none ↦ record { url = url; day_visits = [] } | some d ↦ d ]

-- `getUTSV`: `none` where it returns `false`.
unfoldable pub get_utsv : Calendar → UrlsDays → String → Option (List UrlTpStat)
unfolding to_utsv
get_utsv cal s url = elim (find url s) [
  | none ↦ none
  | some d ↦ some (to_utsv cal d.url d.day_visits)
]

-- What `iterateAll` hands its callback, in the order of the map.
unfoldable pub iterate_all : Calendar → UrlsDays → List (String × List UrlTpStat)
unfolding to_utsv
iterate_all cal [] = []
iterate_all cal ((url, d) ∷ s) = (url, to_utsv cal d.url d.day_visits) ∷ iterate_all cal s

module _ (cal : Calendar) where
  unfoldable pub check_clean : Tp → Dict ℕ → Dict ℕ
  check_clean now days = keep (λ e. not (str_lt e.0 (cal.get_day_str (now - duration)))) days

  unfoldable pub add : UrlsDays → UrlTpStat → Tp → UrlsDays
  unfolding check_clean add_count days_or_new
  add s uts now =
      let d = days_or_new uts.url s in
      if ltb duration (now - uts.tp)
      then s
      else insert uts.url
          (record d {
            day_visits = check_clean now (add_count (cal.get_day_str uts.tp) uts.cnt d.day_visits);
          })
          s

  -- `UrlDaysImpl::merge`
  unfoldable pub merge_days : UrlDays → UrlDays → Tp → UrlDays
  unfolding check_clean merge_counts
  merge_days d e now = elim d.day_visits [
    | [] ↦ record d { day_visits = e.day_visits }
    | x ∷ xs ↦ record d { day_visits = check_clean now (merge_counts d.day_visits e.day_visits) }
  ]

  -- `UrlsDays::merge`: a url that is new gets its entry from `operator[]`.
  unfoldable pub merge : UrlsDays → UrlsDays → Tp → UrlsDays
  unfolding merge_days days_at
  merge s [] now = s
  merge s ((url, e) ∷ rest) now = merge (insert url (merge_days (days_at url s) e now) s) rest now

  -- The loop of `_mergeEventsFromQueue` over the queued events, each with the time of its `add`.
  unfoldable pub add_events : UrlsDays → List (UrlTpStat × Tp) → UrlsDays
  unfolding add
  add_events s [] = s
  add_events s ((uts, now) ∷ events) = add_events (add s uts now) events
