-- ===== src/Ldb/UrlDb/Policy.antt =====
-- src/ldb/UrlDbPolicy.cpp and UrlDbPolicyRobots.cpp: the crawl policy as one table of waiting times.
use contentv.Prelude.{
  ℕ, zero, suc, ◌-◌, ◌*◌, ◌^◌, ◌≤◌, ◌≡◌, refl, ◌∙◌, String, List, [], ◌∷◌, Option, none, some, Bool,
  true, false, arith, sym, leb, length, last?, keep, map, Option-cases, inl, inr,
}
use native.Mathlib.Nat.{pow-suc, pow-le-pow_right}
use contentv.Prelude.Dict.{find}
use contentv.Core.Time.{Tp, hours}
use contentv.Core.Attempts.{
  AttemptStatus, enqueued, pending, fetched, curl_err, status_4xx, status_5xx, unrecognized,
  CrawlAttempt, CrawlAttempts, last_4xx_5xx_count,
}
use contentv.Core.Attempts.History.{last_4xx_5xx_count-le}
use contentv.Core.FreqMap.{UrlFreq}
use contentv.Ldb.UrlDb.{
  UrlDb, Decision, allow, double_times, decide_status, is_need_crawl, decide_robots_status,
  is_need_crawl_robots, is_allow, leave, leave_need_urls, leave_need_robots,
}

double_times-pow : (n w : ℕ) → double_times n w ≡ w * 2 ^ n
unfolding double_times
double_times-pow zero w = grind arith
double_times-pow (suc n) w = double_times-pow n (w * 2) ∙ grind (arith, pow-suc)

-- The hours that a url waits after its last attempt; `none` is for ever.
pub wait_after : CrawlAttempts → AttemptStatus → Option ℕ
wait_after attempts curl_err = some 1
wait_after attempts enqueued = some 24
wait_after attempts pending = some 1
wait_after attempts fetched = some (7 * 24)
wait_after attempts status_4xx = some (2 ^ last_4xx_5xx_count attempts)
wait_after attempts status_5xx = some (2 ^ last_4xx_5xx_count attempts)
wait_after attempts (unrecognized n) = none

pub wait_after_robots : AttemptStatus → Option ℕ
wait_after_robots enqueued = some 1
wait_after_robots pending = some 1
wait_after_robots (unrecognized n) = none
wait_after_robots _ = some 24

-- At least that many whole hours have gone by.
abbrev pub has_waited : Option ℕ → ℕ → Bool
has_waited none age = false
has_waited (some wait) age = leb wait (hours age)

decide_status-wait :
    (attempts : CrawlAttempts) (s : AttemptStatus) (age : ℕ)
    → is_allow (decide_status attempts s age) ≡ has_waited (wait_after attempts s) age
unfolding decide_status wait_after
decide_status-wait attempts status_4xx age =
    ground (arith, double_times-pow (last_4xx_5xx_count attempts) 1)
decide_status-wait attempts status_5xx age =
    ground (arith, double_times-pow (last_4xx_5xx_count attempts) 1)
decide_status-wait attempts _ age = ground arith

decide_robots_status-wait :
    (s : AttemptStatus) (age : ℕ)
    → is_allow (decide_robots_status s age) ≡ has_waited (wait_after_robots s) age
unfolding decide_robots_status wait_after_robots
decide_robots_status-wait curl_err age = ground arith
decide_robots_status-wait _ age = ground arith

-- For a url with a last attempt, `_IsNeedCrawl` and `_IsNeedCrawlRobots` allow it exactly when the
-- waiting time of that attempt's status has gone by: for pages 1 hour after a curl error or a
-- pending attempt, 24 after an enqueued one, 7 days after a success and 2 ^ n hours after a 4xx or
-- 5xx, n being `last4xx5xxCount`; for robots.txt 1 hour after an enqueued or a pending attempt and
-- 24 after any other; never after a status that is not in the list.
pub is_need_crawl-wait :
    (db : UrlDb) (url : String) (now : Tp) (attempts : CrawlAttempts) (last : CrawlAttempt)
    → find url db ≡ some attempts
    → last? attempts ≡ some last
    → (is_allow (is_need_crawl db url now)
        ≡ has_waited (wait_after attempts last.status) (now - last.tp))
      × (is_allow (is_need_crawl_robots db url now)
          ≡ has_waited (wait_after_robots last.status) (now - last.tp))
unfolding is_need_crawl is_need_crawl_robots
is_need_crawl-wait db url now attempts last e f = (
  rw (e, f, is_need_crawl) (decide_status-wait attempts last.status (now - last.tp)),
  rw (e, f, is_need_crawl_robots) (decide_robots_status-wait last.status (now - last.tp)),
)

has_waited_mono : (w : Option ℕ) (a b : ℕ) → a ≤ b → has_waited w a ≡ true → has_waited w b ≡ true
has_waited_mono none a b le h = cc
has_waited_mono (some w) a b le h = ground arith

-- A permission of `_IsNeedCrawl` stays: a url that is allowed now is allowed at any later time, as
-- long as the table does not change.
is_need_crawl_later :
    (db : UrlDb) (url : String) (now later : Tp)
    → now ≤ later
    → is_allow (is_need_crawl db url now) ≡ true
    → is_allow (is_need_crawl db url later) ≡ true
unfolding is_need_crawl
is_need_crawl_later db url now later le h = elim (Option-cases (find url db)) [
  | inl e ↦ rw (e, is_need_crawl) refl
  | inr (attempts, e) ↦ elim (Option-cases (last? attempts)) [
    | inl f ↦ rw (e, f, is_need_crawl) refl
    | inr (last, f) ↦
        (is_need_crawl-wait db url later attempts last e f).0
        ∙ has_waited_mono (wait_after attempts last.status) (now - last.tp) (later - last.tp)
            (omega arith) (sym ((is_need_crawl-wait db url now attempts last e f).0) ∙ h)
  ]
]

abbrev pub Recognized : AttemptStatus → Type 0
Recognized (unrecognized n) = ⊥
Recognized _ = Unit {0}

pow_le : (n : ℕ) → n ≤ 9 → 2 ^ n ≤ 512
pow_le n h = pow-le-pow_right {n = 2} (omega arith) {j = 9} h

wait_after-le :
    (attempts : CrawlAttempts) (s : AttemptStatus)
    → length attempts ≤ 10
    → Recognized s
    → (w : ℕ) × (wait_after attempts s ≡ some w) × (w ≤ 512)
unfolding wait_after
wait_after-le attempts status_4xx h r = (
  2 ^ last_4xx_5xx_count attempts,
  refl,
  pow_le _ (omega (arith, last_4xx_5xx_count-le attempts)),
)
wait_after-le attempts status_5xx h r = (
  2 ^ last_4xx_5xx_count attempts,
  refl,
  pow_le _ (omega (arith, last_4xx_5xx_count-le attempts)),
)
wait_after-le attempts curl_err h r = (1, refl, omega arith)
wait_after-le attempts pending h r = (1, refl, omega arith)
wait_after-le attempts enqueued h r = (24, refl, omega arith)
wait_after-le attempts fetched h r = (168, refl, omega arith)
wait_after-le attempts (unrecognized n) h r = absurd r

-- No url waits longer than 512 hours: with at most ten stored attempts and a last status that is in
-- the list, `_IsNeedCrawl` allows the url once 512 whole hours have gone by.
is_need_crawl_in_time :
    (db : UrlDb) (url : String) (now : Tp) (attempts : CrawlAttempts) (last : CrawlAttempt)
    → find url db ≡ some attempts
    → last? attempts ≡ some last
    → length attempts ≤ 10
    → Recognized last.status
    → 512 ≤ hours (now - last.tp)
    → is_need_crawl db url now ≡ allow
is_need_crawl_in_time db url now attempts last e f h r age =
    let w = wait_after-le attempts last.status h r in
    allow_of _
      ((is_need_crawl-wait db url now attempts last e f).0 ∙ rw (w.1) (ground (arith, w.2)))
  where
    allow_of : (d : Decision) → is_allow d ≡ true → d ≡ allow
    allow_of allow q = refl
    allow_of _ q = cc

leave_lem :
    (decide : String → Decision) (es : List UrlFreq)
    → leave decide es ≡ (map (λ e. decide e.0) es, keep (λ e. is_allow (decide e.0)) es)
unfolding leave
leave_lem decide [] = refl
leave_lem decide (e ∷ es) = rw (leave_lem decide es) refl

-- `leaveNeedUrls` and `leaveNeedRobots` return the decision on every url, in order, and exactly the
-- urls, with their frequencies, that the page policy and the robots policy allow.
pub leave_need_lem :
    (db : UrlDb) (urls : List UrlFreq) (now : Tp)
    → (leave_need_urls db urls now ≡ (
      map (λ e. is_need_crawl db e.0 now) urls,
      keep (λ e. is_allow (is_need_crawl db e.0 now)) urls,
    ))
      × (leave_need_robots db urls now ≡ (
        map (λ e. is_need_crawl_robots db e.0 now) urls,
        keep (λ e. is_allow (is_need_crawl_robots db e.0 now)) urls,
      ))
unfolding leave_need_urls leave_need_robots
leave_need_lem db urls now = (leave_lem _ urls, leave_lem _ urls)
