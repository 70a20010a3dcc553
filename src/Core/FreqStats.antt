-- ===== src/Core/FreqStats.antt =====
-- src/core/LastPerMaps.h and .cpp, UrlFreqStats.h and .cpp: the most visited urls of the last hour
-- and day, and src/core/Types.cpp. Each method of `UrlFreqStats` is one step under its mutex.
pub mod Top
pub mod Reduce
use contentv.Prelude.{
  ℕ, ◌+◌, ◌-◌, ◌%◌, ◌^◌, max, String, List, [], ◌∷◌, Option, none, some, Bool, true, false, not,
  ◌&&◌, ltb, length, if◌then◌else◌, map,
}
use contentv.Prelude.Dict.{Dict, find, insert}
use contentv.Prelude.Sort.{sort_by, more}
use contentv.Prelude.Int.{ℤ, pos, negsuc}
use contentv.Core.Time.{Tp}
use contentv.Core.FreqMap.{UrlFreqMap, UrlVisit, UrlTpStat, UrlFreq}
use contentv.Core.FreqMap

pub record LastPerMaps : Type 0 where
  pub hour_map : UrlFreqMap
  pub day_map : UrlFreqMap

unfoldable pub new : LastPerMaps
unfolding FreqMap.new
new = record { hour_map = FreqMap.new 3600; day_map = FreqMap.new 86400 }

unfoldable pub max_size : LastPerMaps → ℕ
unfolding FreqMap.size
max_size m = max (FreqMap.size m.hour_map) (FreqMap.size m.day_map)

unfoldable pub insert_visit : LastPerMaps → UrlVisit → Tp → LastPerMaps
unfolding FreqMap.insert_visit
insert_visit m visit now = record {
  hour_map = FreqMap.insert_visit m.hour_map visit now;
  day_map = FreqMap.insert_visit m.day_map visit now;
}

unfoldable pub insert_visits_pack : LastPerMaps → UrlTpStat → Tp → LastPerMaps
unfolding FreqMap.insert_visits_pack
insert_visits_pack m uts now = record {
  hour_map = FreqMap.insert_visits_pack m.hour_map uts now;
  day_map = FreqMap.insert_visits_pack m.day_map uts now;
}

unfoldable pub merge : LastPerMaps → LastPerMaps → LastPerMaps
unfolding FreqMap.merge
merge m a = record {
  hour_map = FreqMap.merge m.hour_map a.hour_map;
  day_map = FreqMap.merge m.day_map a.day_map;
}

unfoldable pub get_top_hour_urls : LastPerMaps → List UrlFreq
unfolding FreqMap.get_top_urls
get_top_hour_urls m = FreqMap.get_top_urls m.hour_map

unfoldable pub get_top_day_urls : LastPerMaps → List UrlFreq
unfolding FreqMap.get_top_urls
get_top_day_urls m = FreqMap.get_top_urls m.day_map

-- `r_map.size() < _limit` compares a 64-bit unsigned size with an `int`, which becomes
-- 2 ^ 64 - k if it is -k: the default limit -1 is no limit.
unfoldable pub as_size : ℤ → ℕ
as_size (pos n) = n
as_size (negsuc n) = 2 ^ 64 - (n + 1)

-- The loop over the urls of the hour.
unfoldable pub take_hour : (String → Bool) → ℕ → List UrlFreq → Dict UrlFreq → Dict UrlFreq
take_hour filter limit [] r = r
take_hour filter limit (e ∷ es) r =
    take_hour filter limit es
      (if not (filter e.0) && ltb (length r) limit then insert e.0 e r else r)

-- The loop over the urls of the day: a url that is there already gets the day's count added.
unfoldable pub put_day : UrlFreq → Dict UrlFreq → Dict UrlFreq
put_day e r = elim (find e.0 r) [ none ↦ insert e.0 e r | some f ↦ insert e.0 (f.0, f.1 + e.1) r ]

unfoldable pub take_day : (String → Bool) → ℕ → List UrlFreq → Dict UrlFreq → Dict UrlFreq
unfolding put_day
take_day filter limit [] r = r
take_day filter limit (e ∷ es) r =
    take_day filter limit es (if not (filter e.0) && ltb (length r) limit then put_day e r else r)

-- The values of the map, as the loop with `push_back(it->second)` collects them.
abbrev pub values : Dict UrlFreq → List UrlFreq
values r = map (λ e. e.1) r

unfoldable pub get_top_urls : LastPerMaps → ℤ → (String → Bool) → List UrlFreq
unfolding take_hour take_day get_top_hour_urls get_top_day_urls as_size
get_top_urls m limit filter =
    let r = take_hour filter (as_size limit) (get_top_hour_urls m) [] in
    sort_by (more (λ e. e.1)) (values (take_day filter (as_size limit) (get_top_day_urls m) r))

-- The variant without a filter.
unfoldable pub get_top_urls_all : LastPerMaps → ℤ → List UrlFreq
unfolding get_top_urls
get_top_urls_all m limit = get_top_urls m limit (λ url. false)

-- src/core/Types.cpp: the frequencies of equal urls are added up.
unfoldable pub reduce_loop : List UrlFreq → Dict UrlFreq → Dict UrlFreq
unfolding put_day
reduce_loop [] u = u
reduce_loop (e ∷ es) u = reduce_loop es (put_day e u)

unfoldable pub reduce_url_freqs : List UrlFreq → List UrlFreq
unfolding reduce_loop
reduce_url_freqs urls = values (reduce_loop urls [])
