-- ===== src/Ldb/CrawledDb/Counts.antt =====
-- src/ldb/CrawledDb.cpp: the counts of the events against the number of the results.
use contentv.Prelude.{ℕ, suc, ◌+◌, ◌≡◌, List, [], ◌∷◌, arith, length}
use contentv.Core.Time.{Tp}
use contentv.Core.Attempts.{AttemptStatus}
use contentv.Core.Records.{FetchResult}
use contentv.Core.FreqMap.{UrlTpStat}
use contentv.Ldb.CrawledDb.{save_result, count_status, count_statuses, save_counts, on_fetched}

-- The sum of the counts of the events.
pub all_counts : List UrlTpStat → ℕ
all_counts [] = 0
all_counts (e ∷ q) = e.cnt + all_counts q

unfoldable pub sum_counts : List (AttemptStatus × ℕ) → ℕ
sum_counts [] = 0
sum_counts (e ∷ m) = e.1 + sum_counts m

sum_counts-count_status :
    (s : AttemptStatus) (m : List (AttemptStatus × ℕ))
    → sum_counts (count_status s m) ≡ suc (sum_counts m)
unfolding sum_counts count_status
sum_counts-count_status s [] = omega arith
sum_counts-count_status s ((t, n) ∷ m) = ground (arith, sum_counts-count_status s m)

pub sum_counts-count_statuses :
    (rs : List FetchResult) (m : List (AttemptStatus × ℕ))
    → sum_counts (count_statuses rs m) ≡ length rs + sum_counts m
unfolding count_statuses
sum_counts-count_statuses [] m = omega arith
sum_counts-count_statuses (r ∷ rs) m = omega (
  arith,
  sum_counts-count_statuses rs (count_status r.status m),
  sum_counts-count_status r.status m,
)

pub all_counts-save_result :
    (q : List UrlTpStat) (s : AttemptStatus) (n : ℕ) (now : Tp)
    → all_counts (save_result q s n now) ≡ all_counts q + n
unfolding all_counts save_result
all_counts-save_result [] s n now = omega arith
all_counts-save_result (e ∷ q) s n now = omega (arith, all_counts-save_result q s n now)

all_counts-save_counts :
    (q : List UrlTpStat) (m : List (AttemptStatus × ℕ)) (clock : ℕ → Tp)
    → all_counts (save_counts q m clock) ≡ all_counts q + sum_counts m
unfolding save_counts sum_counts
all_counts-save_counts q [] clock = omega arith
all_counts-save_counts q ((s, n) ∷ m) clock = omega (
  arith,
  all_counts-save_counts (save_result q s n (clock 0)) m (λ i. clock (suc i)),
  all_counts-save_result q s n (clock 0),
)

pub all_counts-on_fetched :
    (q : List UrlTpStat) (rs : List FetchResult) (clock : ℕ → Tp)
    → all_counts (on_fetched q rs clock) ≡ all_counts q + length rs
unfolding on_fetched sum_counts
all_counts-on_fetched q rs clock =
    omega (
      arith,
      all_counts-save_counts q (count_statuses rs []) clock,
      sum_counts-count_statuses rs [],
    )
