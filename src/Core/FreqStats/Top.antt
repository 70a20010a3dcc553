-- ===== src/Core/FreqStats/Top.antt =====
-- src/core/UrlFreqStats.cpp: what `getTopUrls` promises its caller.
use contentv.Prelude.{
  ℕ, ◌+◌, ◌≤◌, ◌<◌, ◌≡◌, refl, String, List, [], ◌∷◌, Bool, false, not, ◌&&◌, arith, All, ltb,
  length, Bool-cases, Option-cases, inl, inr,
}
use contentv.Prelude.Dict.{Dict, find, insert, length-insert-le, All-insert, find-All}
use contentv.Prelude.Sort.{sort_by-IsDescending, IsDescending, length-sort_by, All-sort_by}
use contentv.Prelude.Int.{ℤ}
use contentv.Core.FreqMap.{UrlFreq}
use contentv.Core.FreqStats.{
  LastPerMaps, as_size, take_hour, take_day, put_day, values, get_top_urls, get_top_hour_urls,
  get_top_day_urls,
}

-- The collected urls: no more than the limit, each under its own name, and none that is filtered.
record IsBounded (filter : String → Bool) (limit : ℕ) (r : Dict UrlFreq) : Type 0 where
  fits : length r ≤ limit
  passed : All (λ e. (e.1.0 ≡ e.0) × (filter e.0 ≡ false)) r

module _ (filter : String → Bool) (limit : ℕ) where
  put-IsBounded :
      (u : String) (f : UrlFreq) (r : Dict UrlFreq)
      → filter u ≡ false
      → length r < limit
      → f.0 ≡ u
      → IsBounded filter limit r
      → IsBounded filter limit (insert u f r)
  put-IsBounded u f r p l k h = record {
    fits = omega (arith, length-insert-le u f r);
    passed = All-insert (λ e. (e.1.0 ≡ e.0) × (filter e.0 ≡ false)) u f r (k, p) h.passed;
  }

  put_day-IsBounded :
      (e : UrlFreq) (r : Dict UrlFreq)
      → filter e.0 ≡ false
      → length r < limit
      → IsBounded filter limit r
      → IsBounded filter limit (put_day e r)
  unfolding put_day
  put_day-IsBounded e r p l h = elim (Option-cases (find e.0 r)) [
    | inl q ↦ rw (q, put_day) (put-IsBounded e.0 e r p l refl h)
    | inr (f, q) ↦
        rw (q, put_day)
          (put-IsBounded e.0 (f.0, f.1 + e.1) r p l
            (find-All (λ x. (x.1.0 ≡ x.0) × (filter x.0 ≡ false)) e.0 f r h.passed q).0 h)
  ]

  take_hour-IsBounded :
      (es : List UrlFreq) (r : Dict UrlFreq)
      → IsBounded filter limit r
      → IsBounded filter limit (take_hour filter limit es r)
  unfolding take_hour
  take_hour-IsBounded [] r h = h
  take_hour-IsBounded (e ∷ es) r h = elim (Bool-cases (not (filter e.0) && ltb (length r) limit)) [
    | inl t ↦
        rw t (take_hour-IsBounded es _ (put-IsBounded e.0 e r (ground arith) (ground arith) refl h))
    | inr t ↦ rw t (take_hour-IsBounded es r h)
  ]

  take_day-IsBounded :
      (es : List UrlFreq) (r : Dict UrlFreq)
      → IsBounded filter limit r
      → IsBounded filter limit (take_day filter limit es r)
  unfolding take_day
  take_day-IsBounded [] r h = h
  take_day-IsBounded (e ∷ es) r h = elim (Bool-cases (not (filter e.0) && ltb (length r) limit)) [
    | inl t ↦ rw t (take_day-IsBounded es _ (put_day-IsBounded e r (ground arith) (ground arith) h))
    | inr t ↦ rw t (take_day-IsBounded es r h)
  ]

All-values :
    (filter : String → Bool) (r : Dict UrlFreq)
    → All (λ e. (e.1.0 ≡ e.0) × (filter e.0 ≡ false)) r
    → All (λ (e : UrlFreq). filter e.0 ≡ false) (values r)
All-values filter [] h = tt
All-values filter ((u, f) ∷ r) h = (ground (arith, h.0), All-values filter r h.1)

length-values : (r : Dict UrlFreq) → length (values r) ≡ length r
length-values [] = refl
length-values (e ∷ r) = omega (arith, length-values r)

-- `getTopUrls` returns at most `limit` urls, where a negative limit stands for 2 ^ 64 less its
-- absolute value, none of them one that the filter rejects, in order of falling frequency.
pub get_top_urls_bounds :
    (m : LastPerMaps) (limit : ℤ) (filter : String → Bool)
    → (length (get_top_urls m limit filter) ≤ as_size limit)
      × All (λ (e : UrlFreq). filter e.0 ≡ false) (get_top_urls m limit filter)
      × IsDescending (λ (e : UrlFreq). e.1) (get_top_urls m limit filter)
unfolding get_top_urls
get_top_urls_bounds m limit filter =
    let b = take_day-IsBounded filter (as_size limit) (get_top_day_urls m) _ (
      take_hour-IsBounded filter (as_size limit) (get_top_hour_urls m) []
        (record { fits = omega arith; passed = tt })) in
    (
      rw (length-sort_by, length-values) (b.fits),
      All-sort_by (λ e. filter e.0 ≡ false) _ _ (All-values filter _ b.passed),
      sort_by-IsDescending _ _,
    )
