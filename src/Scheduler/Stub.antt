-- ===== src/Scheduler/Stub.antt =====
-- src/scheduler/SchedulerStub.h and .cpp: a scheduler that allows records by chance and keeps the
-- results, in place of the tables.
use contentv.Prelude.{
  ℕ, suc, ◌+◌, ◌≡◌, refl, String, List, [], ◌∷◌, ◌++◌, none, some, Bool, arith, length,
  length-append, if◌then◌else◌, Bool-cases, inl, inr, Option-cases,
}
use mathlib.Core.List.{Sublistᴰ}
use contentv.Core.Attempts.{AttemptStatus}
use contentv.Core.Url.{Web, url_parsed, is_robots_url}
use contentv.Core.Records.{GfqRecord, FetchResult, is_robots, is_ok}

-- `m_crawled`, `m_robots`, `m_failed` and `m_robots_failed`
pub record SchedulerStub : Type 0 where
  pub crawled : List GfqRecord
  pub robots : List (String × String)
  pub failed : List (GfqRecord × AttemptStatus)
  pub robots_failed : List (GfqRecord × AttemptStatus)

-- `onSuccess`
unfoldable pub on_success : SchedulerStub → FetchResult → SchedulerStub
on_success s res = record s { crawled = s.crawled ++ res.gfq ∷ [] }

-- `onFail`
unfoldable pub on_fail : SchedulerStub → FetchResult → SchedulerStub
on_fail s res = record s { failed = s.failed ++ (res.gfq, res.status) ∷ [] }

-- `onRobots`
unfoldable pub on_robots : SchedulerStub → FetchResult → SchedulerStub
on_robots s res = record s { robots = s.robots ++ (res.gfq.url, res.content) ∷ [] }

-- `onRobotsFail`
unfoldable pub on_robots_fail : SchedulerStub → FetchResult → SchedulerStub
on_robots_fail s res = record s { robots_failed = s.robots_failed ++ (res.gfq, res.status) ∷ [] }

-- The body of the loop of `onFetched`.
unfoldable pub on_result : SchedulerStub → FetchResult → SchedulerStub
unfolding on_success on_fail on_robots on_robots_fail is_robots is_ok
on_result s res =
    if is_robots res.gfq
    then (if is_ok res then on_robots s res else on_robots_fail s res)
    else (if is_ok res then on_success s res else on_fail s res)

-- `onFetched`
unfoldable pub on_fetched : SchedulerStub → List FetchResult → SchedulerStub
unfolding on_result
on_fetched s [] = s
on_fetched s (r ∷ rs) = on_fetched (on_result s r) rs

-- `tryFetchUrls`; `coin i` says that `std::rand() % 2` is 0 for the i-th record.
unfoldable pub try_fetch_urls : Web → (ℕ → Bool) → List GfqRecord → List GfqRecord
unfolding url_parsed is_robots_url
try_fetch_urls web coin [] = []
try_fetch_urls web coin (g ∷ gs) =
    let rest = try_fetch_urls web (λ i. coin (suc i)) gs in
    elim (url_parsed web g.url) [
      | none ↦ rest
      | some u ↦ if is_robots_url u then g ∷ rest else if coin 0 then g ∷ rest else rest
    ]

-- What is allowed was asked for, in the same order.
try_fetch_urls-Sublist :
    (web : Web) (coin : ℕ → Bool) (gs : List GfqRecord) → Sublistᴰ (try_fetch_urls web coin gs) gs
unfolding try_fetch_urls
try_fetch_urls-Sublist web coin [] = Sublistᴰ.slnil
try_fetch_urls-Sublist web coin (g ∷ gs) =
    let ih = try_fetch_urls-Sublist web (λ i. coin (suc i)) gs in
    elim (Option-cases (url_parsed web g.url)) [
      | inl e ↦ rw (e, try_fetch_urls) (Sublistᴰ.cons ih)
      | inr (u, e) ↦
          rw (e, try_fetch_urls)
            (elim (Bool-cases (is_robots_url u)) [
              | inl f ↦ rw f (Sublistᴰ.cons-cons refl ih)
              | inr f ↦ rw f (elim (Bool-cases (coin 0)) [
                | inl c ↦ rw c (Sublistᴰ.cons-cons refl ih)
                | inr c ↦ rw c (Sublistᴰ.cons ih)
              ])
            ])
    ]

abbrev kept : SchedulerStub → ℕ
kept s = length s.crawled + length s.robots + (length s.failed + length s.robots_failed)

kept-on_result : (s : SchedulerStub) (r : FetchResult) → kept (on_result s r) ≡ suc (kept s)
unfolding on_result on_success on_fail on_robots on_robots_fail
kept-on_result s r = elim (Bool-cases (is_robots r.gfq)) [
  | inl e ↦ elim (Bool-cases (is_ok r)) [
    | inl f ↦ rw (e, f) (omega (arith, length-append s.robots ((r.gfq.url, r.content) ∷ [])))
    | inr f ↦ rw (e, f) (omega (arith, length-append s.robots_failed ((r.gfq, r.status) ∷ [])))
  ]
  | inr e ↦ elim (Bool-cases (is_ok r)) [
    | inl f ↦ rw (e, f) (omega (arith, length-append s.crawled (r.gfq ∷ [])))
    | inr f ↦ rw (e, f) (omega (arith, length-append s.failed ((r.gfq, r.status) ∷ [])))
  ]
]

-- Each result is kept in one of the four lists.
kept-on_fetched :
    (s : SchedulerStub) (rs : List FetchResult) → kept (on_fetched s rs) ≡ kept s + length rs
unfolding on_fetched
kept-on_fetched s [] = omega arith
kept-on_fetched s (r ∷ rs) = omega (arith, kept-on_fetched (on_result s r) rs, kept-on_result s r)
