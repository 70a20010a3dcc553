-- ===== src/Core/FreqMap.antt =====
-- src/core/UrlVisit.h, UrlTpStat.h and .cpp, UrlFreqMap.h and .cpp: the number of visits of each
-- url in the last `window` seconds.
pub mod Counts
pub mod Sliding
pub mod Merge
use contentv.Prelude.{
  ℕ, ◌+◌, ◌-◌, String, List, [], ◌∷◌, ◌++◌, Option, none, some, Bool, true, false, leb, ltb, length,
  if◌then◌else◌,
}
use contentv.Prelude.Dict.{Dict, find, insert, erase}
use contentv.Prelude.Sort.{sort_by, more}
use contentv.Core.Time.{Tp, secs}

pub record UrlVisit : Type 0 where
  pub url : String
  pub tp : Tp

-- `Cnt` is a signed 64-bit integer in the source. Counts of visits are at least 0 and far below
-- 2 ^ 63, so they are numbers here.
pub record UrlTpStat : Type 0 where
  pub url : String
  pub tp : Tp
  pub cnt : ℕ

unfoldable pub of_visit : UrlVisit → UrlTpStat
of_visit v = record { url = v.url; tp = v.tp; cnt = 1 }

abbrev pub UrlFreq : Type 0
UrlFreq = String × ℕ

-- `uts_q` is the deque, its front first; `window` is in seconds.
pub record UrlFreqMap : Type 0 where
  pub url_freq : Dict ℕ
  pub uts_q : List UrlTpStat
  pub window : ℕ

unfoldable pub new : ℕ → UrlFreqMap
new window = record { url_freq = []; uts_q = []; window = window }

-- What `m[url]` reads: a missing key counts as 0.
unfoldable pub count_of : String → Dict ℕ → ℕ
count_of u m = elim (find u m) [ none ↦ 0 | some c ↦ c ]

-- `m[url] += c`
unfoldable pub add_count : String → ℕ → Dict ℕ → Dict ℕ
unfolding count_of
add_count u c m = insert u (count_of u m + c) m

-- `it->second -= cnt`, and the entry is erased if that is 0 or less.
unfoldable pub sub_count : UrlTpStat → Dict ℕ → Dict ℕ
sub_count s m = elim (find s.url m) [
  | none ↦ m
  | some c ↦ if leb c s.cnt then erase s.url m else insert s.url (c - s.cnt) m
]

-- The loop of `checkCleanup` over the queue and the map.
unfoldable pub cleanup : ℕ → Tp → List UrlTpStat → Dict ℕ → List UrlTpStat × Dict ℕ
unfolding sub_count
cleanup window now [] m = ([], m)
cleanup window now (s ∷ q) m =
    if leb (secs (now - s.tp)) window then (s ∷ q, m) else cleanup window now q (sub_count s m)

unfoldable pub check_cleanup : UrlFreqMap → Tp → UrlFreqMap
unfolding cleanup
check_cleanup f now =
    let r = cleanup f.window now f.uts_q f.url_freq in record f { uts_q = r.0; url_freq = r.1 }

unfoldable pub insert_visits_pack : UrlFreqMap → UrlTpStat → Tp → UrlFreqMap
unfolding add_count check_cleanup
insert_visits_pack f uts now =
    check_cleanup
      (record f { uts_q = f.uts_q ++ uts ∷ []; url_freq = add_count uts.url uts.cnt f.url_freq })
      now

unfoldable pub insert_visit : UrlFreqMap → UrlVisit → Tp → UrlFreqMap
unfolding of_visit insert_visits_pack
insert_visit f visit now = insert_visits_pack f (of_visit visit) now

-- `m[it->first] += it->second` for each entry of the other map.
unfoldable pub merge_counts : Dict ℕ → Dict ℕ → Dict ℕ
unfolding add_count
merge_counts m [] = m
merge_counts m ((u, c) ∷ other) = merge_counts (add_count u c m) other

unfoldable pub merge_queues : List UrlTpStat → List UrlTpStat → List UrlTpStat
merge_queues [] q₂ = q₂
merge_queues (s ∷ q₁) [] = s ∷ q₁
merge_queues (s ∷ q₁) (t ∷ q₂) = elim (ltb s.tp t.tp) [
  | true ↦ s ∷ merge_queues q₁ (t ∷ q₂)
  | false ↦ t ∷ merge_queues (s ∷ q₁) q₂
]

unfoldable pub merge : UrlFreqMap → UrlFreqMap → UrlFreqMap
unfolding merge_counts merge_queues
merge f a = record f {
  url_freq = merge_counts f.url_freq a.url_freq;
  uts_q = merge_queues f.uts_q a.uts_q;
}

-- The loop of `checkSortedAndDestroyQueue` behind the first element, with the queue that it leaves;
-- `prev` stays that element.
unfoldable pub none_before : UrlTpStat → List UrlTpStat → List UrlTpStat × Bool
none_before prev [] = ([], true)
none_before prev (cur ∷ q) = if ltb cur.tp prev.tp then (q, false) else none_before prev q

unfoldable pub check_sorted : UrlFreqMap → UrlFreqMap × Bool
unfolding none_before
check_sorted f = elim f.uts_q [
  | [] ↦ (f, true)
  | prev ∷ q ↦ let r = none_before prev q in (record f { uts_q = r.0 }, r.1)
]

unfoldable pub get_top_urls : UrlFreqMap → List UrlFreq
get_top_urls f = sort_by (more (λ e. e.1)) f.url_freq

unfoldable pub size : UrlFreqMap → ℕ
size f = length f.url_freq
