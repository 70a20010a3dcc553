-- ===== src/Scheduler/Enqueue/Loop.antt =====
-- src/scheduler/default/EnqueueLoop.cpp: `_loopImpl`, one round of the enqueue loop.
use contentv.Prelude.{
  sym, ◌++◌, ℕ, zero, suc, ◌-◌, ◌≤◌, ◌<◌, ◌≡◌, refl, ap, inl, inr, String, List, [], ◌∷◌, Option,
  none, some, arith, length, All,
}
use contentv.Prelude.Dict.{IsIn}
use contentv.Prelude.Int.{ℤ, pos, negsuc, pos_part}
use contentv.Core.Time.{Tp, hours}
use contentv.Core.Url.{Web}
use contentv.Core.Attempts.{enqueued}
use contentv.Core.FreqMap.{UrlTpStat, UrlFreq}
use contentv.Core.FreqStats.{max_size}
use contentv.Core.Records.{GfqRecord}
use contentv.Ldb.UrlDb.{
  UrlDb, disallow_try_in_a_day, disallow_try_in_hour, is_need_crawl, is_need_crawl_robots,
  set_enqueued,
}
use contentv.Ldb.UrlDb.Modify.{
  IsValid, set_enqueued-blocks, set_enqueued-blocks_robots, set_enqueued-IsValid,
}
use contentv.Ldb.CrawledDb.{save_result, gen_fake_url_for_result}
use contentv.Misc.{Limiter}
use contentv.Scheduler.Enqueue.{View, search_top, push_to_kafka}
use contentv.Scheduler.Enqueue.Search.{search_top-Found}

-- What a round leaves: the records written to the queue, the queue of the crawled table, and the url
-- table.
pub record Round : Type 0 where
  pub written : List GfqRecord
  pub crawled : List UrlTpStat
  pub urls : UrlDb

-- `to_urls_vec`
unfoldable pub to_urls_vec : List UrlFreq → List String
to_urls_vec [] = []
to_urls_vec (e ∷ es) = e.0 ∷ to_urls_vec es

length-to_urls_vec : (es : List UrlFreq) → length (to_urls_vec es) ≡ length es
unfolding to_urls_vec
length-to_urls_vec [] = refl
length-to_urls_vec (e ∷ es) = ap suc (length-to_urls_vec es)

length-push_to_kafka : (urls : List String) (ts : ℕ) → length (push_to_kafka urls ts) ≡ length urls
unfolding push_to_kafka
length-push_to_kafka [] ts = refl
length-push_to_kafka (u ∷ urls) ts = ap suc (length-push_to_kafka urls ts)

All-push_to_kafka :
    (P : String → Type 0) (urls : List String) (ts : ℕ)
    → ((url : String) → IsIn url urls → P url)
    → All (λ (g : GfqRecord). P g.url) (push_to_kafka urls ts)
unfolding push_to_kafka
All-push_to_kafka P [] ts f = tt
All-push_to_kafka P (u ∷ urls) ts f =
    (f u (inl refl), All-push_to_kafka P urls ts (λ url h. f url (inr h)))

module _ (web : Web) {Db : Type 0} (limiter : Limiter) where
  -- `_checkEnqueueImpl`, from the result of `_calcToEnqueueNow`.
  unfoldable pub check_enqueue : ℤ → (ℕ → View Db) → ℕ → Option (List UrlFreq)
  unfolding search_top
  check_enqueue (pos zero) views fuel = some []
  check_enqueue (negsuc n) views fuel = some []
  check_enqueue (pos (suc n)) views fuel = elim (search_top web limiter (suc n) views fuel) [
    | none ↦ none
    | some r ↦ some r.1
  ]

  check_enqueue-le :
      (target : ℤ) (known : ℕ) (views : ℕ → View Db)
      → ((i : ℕ) → max_size (views i).stats_after ≤ known)
      → (es : List UrlFreq) × (check_enqueue target views (suc known) ≡ some es)
        × (length es ≤ pos_part target)
  unfolding check_enqueue
  check_enqueue-le (pos zero) known views k = ([], refl, omega arith)
  check_enqueue-le (negsuc n) known views k = ([], refl, omega arith)
  check_enqueue-le (pos (suc n)) known views k =
      let t = search_top-Found web limiter (suc n) known views k (omega arith) in
      (
        t.0.1,
        rw (t.1, check_enqueue) refl,
        elim (t.2.3) [ inl e ↦ omega (arith, e) | inr e ↦ omega (arith, e.1) ],
      )

module _ (round : Tp → Tp) (to_int64 : Tp → ℕ) where
  -- The rest of `_loopImpl`: the time of the attempt is read once.
  unfoldable pub push_all : List UrlFreq → UrlDb → List UrlTpStat → Tp → Tp → Round
  unfolding to_urls_vec push_to_kafka save_result set_enqueued
  push_all es db crawled attempt_tp saved_tp =
      let urls = to_urls_vec es in
      record {
        written = push_to_kafka urls (to_int64 attempt_tp);
        crawled = save_result crawled enqueued (length urls) saved_tp;
        urls = set_enqueued round db urls attempt_tp;
      }

  -- What a round with that target leaves: no more records than the target; behind the events one that
  -- counts the records under the fake url of the status 0, which is `enqueued`; a valid url table; and
  -- the written urls are not allowed again, by the policy for pages at `later`, and by that for
  -- robots.txt files at `soon`.
  pub record IsDone (target : ℤ) (crawled : List UrlTpStat) (saved_tp soon later : Tp) (r : Round)
      : Type 0 where
    pub fits : length r.written ≤ pos_part target
    pub counted :
        r.crawled
        ≡ crawled
          ++ record { url = gen_fake_url_for_result 0; tp = saved_tp; cnt = length r.written } ∷ []
    pub valid : IsValid r.urls
    pub blocked :
        All (λ (g : GfqRecord). is_need_crawl r.urls g.url later ≡ disallow_try_in_a_day) r.written
    pub robots_blocked :
        All
          (λ (g : GfqRecord). is_need_crawl_robots r.urls g.url soon ≡ disallow_try_in_hour)
          r.written

  push_all-IsDone :
      (target : ℤ) (es : List UrlFreq) (db : UrlDb) (crawled : List UrlTpStat)
      (attempt_tp saved_tp soon later : Tp)
      → length es ≤ pos_part target
      → IsValid db
      → hours (soon - round attempt_tp) < 1
      → hours (later - round attempt_tp) < 24
      → IsDone target crawled saved_tp soon later (push_all es db crawled attempt_tp saved_tp)
  unfolding push_all save_result
  push_all-IsDone target es db crawled attempt_tp saved_tp soon later le v near age =
      let urls = to_urls_vec es in
      let n : length (push_to_kafka urls (to_int64 attempt_tp)) ≡ length urls =
        length-push_to_kafka urls (to_int64 attempt_tp) in
      record {
        fits = omega (arith, n, length-to_urls_vec es, le);
        counted =
            ap
              (λ k.
                crawled ++ record { url = gen_fake_url_for_result 0; tp = saved_tp; cnt = k } ∷ [])
              (sym n);
        valid = set_enqueued-IsValid round db urls attempt_tp v;
        blocked =
            All-push_to_kafka
              (λ url.
                is_need_crawl (set_enqueued round db urls attempt_tp) url later
                ≡ disallow_try_in_a_day)
              urls (to_int64 attempt_tp)
              (λ url h. set_enqueued-blocks round db urls url attempt_tp later h age);
        robots_blocked =
            All-push_to_kafka
              (λ url.
                is_need_crawl_robots (set_enqueued round db urls attempt_tp) url soon
                ≡ disallow_try_in_hour)
              urls (to_int64 attempt_tp)
              (λ url h. set_enqueued-blocks_robots round db urls url attempt_tp soon h near);
      }

module _ (web : Web) {Db : Type 0} (limiter : Limiter) (round : Tp → Tp) (to_int64 : Tp → ℕ) where
  unfoldable pub loop_impl : ℤ → (ℕ → View Db) → ℕ → UrlDb → List UrlTpStat → Tp → Tp → Option Round
  unfolding check_enqueue push_all
  loop_impl target views fuel db crawled attempt_tp saved_tp =
      elim (check_enqueue web limiter target views fuel) [
        | none ↦ none
        | some es ↦ some (push_all round to_int64 es db crawled attempt_tp saved_tp)
      ]

  -- One round of the enqueue loop ends: when there are never more than `known` urls, `known + 1` rounds
  -- of its search are enough. From a valid url table it writes no more records than the target, and
  -- none when that is not positive; it saves their number as that of the enqueued results; the url
  -- table is valid after it; and the policy for pages answers "not again within a day" for each url that
  -- it wrote while 24 hours have not gone by since the rounded time of the attempt, and that for
  -- robots.txt files "not again within an hour" while one hour has not.
  pub loop_impl-IsDone :
      (target : ℤ) (known : ℕ) (views : ℕ → View Db) (db : UrlDb) (crawled : List UrlTpStat)
      (attempt_tp saved_tp soon later : Tp)
      → ((i : ℕ) → max_size (views i).stats_after ≤ known)
      → IsValid db
      → hours (soon - round attempt_tp) < 1
      → hours (later - round attempt_tp) < 24
      → (r : Round) × (loop_impl target views (suc known) db crawled attempt_tp saved_tp ≡ some r)
        × IsDone round to_int64 target crawled saved_tp soon later r
  unfolding loop_impl
  loop_impl-IsDone target known views db crawled attempt_tp saved_tp soon later k v near age =
      let c = check_enqueue-le web limiter target known views k in
      (
        push_all round to_int64 c.0 db crawled attempt_tp saved_tp,
        rw (c.1, loop_impl) refl,
        push_all-IsDone round to_int64 target c.0 db crawled attempt_tp saved_tp soon later c.2 v
            near age,
      )
