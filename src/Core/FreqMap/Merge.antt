-- ===== src/Core/FreqMap/Merge.antt =====
-- src/core/UrlFreqMap.cpp: `merge`, `checkSortedAndDestroyQueue` and `getTopUrls`.
use contentv.Prelude.{
  ℕ, ◌+◌, ◌≤◌, ◌<◌, ◌≡◌, refl, String, List, [], ◌∷◌, true, ◌↔◌, arith, eq_iff, ltb, All,
  All-map_imp, Bool-cases, inl, inr,
}
use mathlib.Core.List.{Perm}
use contentv.Prelude.Dict.{Dict, find, IsUnique, insert-IsUnique}
use contentv.Prelude.Sort.{sort_by-perm, sort_by-IsDescending, IsDescending}
use contentv.Core.Sorted.{IsSorted}
use contentv.Core.FreqMap.{
  UrlTpStat, UrlFreqMap, UrlFreq, count_of, add_count, merge_counts, merge_queues, merge,
  none_before, check_sorted, get_top_urls,
}
use contentv.Core.FreqMap.Counts.{
  total, PositiveEntries, IsClean, IsExact, count_of-add_count, add_count-IsClean,
}
use contentv.Core.FreqMap.Sliding.{tp_of}

total-merge_queues :
    (u : String) (q₁ q₂ : List UrlTpStat) → total u (merge_queues q₁ q₂) ≡ total u q₁ + total u q₂
unfolding total merge_queues
total-merge_queues u [] q₂ = omega arith
total-merge_queues u (s ∷ q₁) [] = omega arith
total-merge_queues u (s ∷ q₁) (t ∷ q₂) = elim (Bool-cases (ltb s.tp t.tp)) [
  | inl e ↦ rw (e, merge_queues) (omega (arith, total-merge_queues u q₁ (t ∷ q₂)))
  | inr e ↦ rw (e, merge_queues) (omega (arith, total-merge_queues u (s ∷ q₁) q₂))
]

All-merge_queues :
    (P : UrlTpStat → Type 0) (q₁ q₂ : List UrlTpStat)
    → All P q₁
    → All P q₂
    → All P (merge_queues q₁ q₂)
unfolding merge_queues
All-merge_queues P [] q₂ h k = k
All-merge_queues P (s ∷ q₁) [] h k = h
All-merge_queues P (s ∷ q₁) (t ∷ q₂) h k = elim (Bool-cases (ltb s.tp t.tp)) [
  | inl e ↦ rw (e, merge_queues) (h.0, All-merge_queues P q₁ (t ∷ q₂) h.1 k)
  | inr e ↦ rw (e, merge_queues) (k.0, All-merge_queues P (s ∷ q₁) q₂ h k.1)
]

later_than :
    (s t : UrlTpStat) (q : List UrlTpStat)
    → s.tp ≤ t.tp
    → All (λ (x : UrlTpStat). t.tp ≤ x.tp) q
    → All (λ (x : UrlTpStat). s.tp ≤ x.tp) q
later_than s t q le =
    All-map_imp (λ (x : UrlTpStat). t.tp ≤ x.tp) (λ x. s.tp ≤ x.tp) q (λ x p. omega arith)

merge_queues-IsSorted :
    (q₁ q₂ : List UrlTpStat)
    → IsSorted tp_of q₁
    → IsSorted tp_of q₂
    → IsSorted tp_of (merge_queues q₁ q₂)
unfolding merge_queues
merge_queues-IsSorted [] q₂ h k = k
merge_queues-IsSorted (s ∷ q₁) [] h k = h
merge_queues-IsSorted (s ∷ q₁) (t ∷ q₂) h k = elim (Bool-cases (ltb s.tp t.tp)) [
  | inl e ↦
      rw (e, merge_queues)
        (
          All-merge_queues (λ x. s.tp ≤ x.tp) q₁ (t ∷ q₂) h.0
              (ground arith, later_than s t q₂ (ground arith) k.0),
          merge_queues-IsSorted q₁ (t ∷ q₂) h.1 k,
        )
  | inr e ↦
      rw (e, merge_queues)
        (
          All-merge_queues (λ x. t.tp ≤ x.tp) (s ∷ q₁) q₂
              (ground arith, later_than t s q₁ (ground arith) h.0) k.0,
          merge_queues-IsSorted (s ∷ q₁) q₂ h k.1,
        )
]

pub count_of-merge_counts :
    (u : String) (m a : Dict ℕ)
    → IsUnique a
    → count_of u (merge_counts m a) ≡ count_of u m + count_of u a
unfolding merge_counts count_of find
count_of-merge_counts u m [] h = ground arith
count_of-merge_counts u m ((v, c) ∷ a) h = ground (
  arith,
  eq_iff v u,
  count_of-add_count v u c m,
  count_of-merge_counts u (add_count v c m) a h.1,
  h.0,
)

pub merge_counts-IsUnique : (m a : Dict ℕ) → IsUnique m → IsUnique (merge_counts m a)
unfolding merge_counts add_count
merge_counts-IsUnique m [] u = u
merge_counts-IsUnique m ((v, c) ∷ a) u =
    merge_counts-IsUnique (add_count v c m) a (insert-IsUnique v _ m u)

merge_counts-IsClean : (m a : Dict ℕ) → IsClean m → PositiveEntries a → IsClean (merge_counts m a)
unfolding merge_counts
merge_counts-IsClean m [] c p = c
merge_counts-IsClean m ((v, n) ∷ a) c p =
    merge_counts-IsClean (add_count v n m) a (add_count-IsClean v n m p.0 c) p.1

-- Merging two exact maps whose queues are in order of time gives an exact map whose queue is in
-- order of time, and every url's count is the sum of its two counts.
pub merge-IsExact :
    (f a : UrlFreqMap)
    → IsExact f
    → IsExact a
    → IsSorted tp_of f.uts_q
    → IsSorted tp_of a.uts_q
    → IsExact (merge f a)
      × IsSorted tp_of (merge f a).uts_q
      × ((u : String)
          → count_of u (merge f a).url_freq ≡ count_of u f.url_freq + count_of u a.url_freq)
unfolding merge
merge-IsExact f a hf ha sf sa =
    let sum = λ (u : String). count_of-merge_counts u f.url_freq a.url_freq ha.clean.unique in
    (
      record {
        clean = merge_counts-IsClean f.url_freq a.url_freq hf.clean ha.clean.positive;
        counted = All-merge_queues (λ s. 0 < s.cnt) f.uts_q a.uts_q hf.counted ha.counted;
        exact =
            λ u. omega (arith, sum u, total-merge_queues u f.uts_q a.uts_q, hf.exact u, ha.exact u);
      },
      merge_queues-IsSorted f.uts_q a.uts_q sf sa,
      sum,
    )

none_before_iff :
    (prev : UrlTpStat) (q : List UrlTpStat)
    → ((none_before prev q).1 ≡ true) ↔ All (λ (s : UrlTpStat). prev.tp ≤ s.tp) q
unfolding none_before
none_before_iff prev [] = (λ h. tt, λ h. refl)
none_before_iff prev (cur ∷ q) = ground (arith, none_before_iff prev q)

-- On a non-empty queue `checkSortedAndDestroyQueue` answers true exactly when no element is
-- earlier than the first one: it compares every element with the first, not with its neighbour.
check_sorted_iff :
    (f : UrlFreqMap) (first : UrlTpStat) (rest : List UrlTpStat)
    → f.uts_q ≡ first ∷ rest
    → ((check_sorted f).1 ≡ true) ↔ All (λ (s : UrlTpStat). first.tp ≤ s.tp) rest
unfolding check_sorted
check_sorted_iff f first rest e = rw (e, check_sorted) (none_before_iff first rest)

-- `getTopUrls` lists exactly the entries of the map, the most visited first.
get_top_urls_lem :
    (f : UrlFreqMap)
    → Perm (get_top_urls f) f.url_freq × IsDescending (λ (e : UrlFreq). e.1) (get_top_urls f)
unfolding get_top_urls
get_top_urls_lem f = (sort_by-perm _ f.url_freq, sort_by-IsDescending _ f.url_freq)
