-- ===== src/Ldb/HostDb/Running.antt =====
-- src/ldb/HostDb.cpp: the counter of a host against the fetches of it that run.
use contentv.Prelude.{
  ℕ, suc, ◌+◌, ◌-◌, ◌≤◌, ◌≡◌, refl, sym, ap, ◌∙◌, String, List, [], ◌∷◌, none, some, Bool, false,
  ◌&&◌, arith, str_eq, eq_iff, Bool-cases, Option-cases, inl, inr, if◌then◌else◌,
}
use contentv.Prelude.Dict.{find}
use contentv.Core.Url.{Web, UrlParsed, url_parsed}
use contentv.Core.Records.{GfqRecord, FetchResult, is_robots, is_ok}
use contentv.Core.HostFreq.{CrawlLimits, dec_crawling, new}
use contentv.Ldb.Store.{LevelDb}
use contentv.Ldb.HostDb.{
  HostDb, Decision, allow, Clock, Tried, freq_at, try_crawl_url, tell, tell_unparsed,
  try_crawl_loop, try_crawl, end_crawling, save_robots, on_fetched_one, on_fetched, open_db,
}
use contentv.Ldb.HostDb.Limits.{cap, Call, tries, fetches, run, run-Within, freq_at-Within}
use contentv.Ldb.HostDb.Counter.{
  counter, counter_insert, added, added_refused, counter-try_crawl_url,
}

module _ (web : Web) where
  abbrev on_host : String → String → Bool
  on_host host url = elim (url_parsed web url) [ none ↦ false | some p ↦ str_eq p.host host ]

  on_host_parsed :
      (host url : String) (p : UrlParsed)
      → url_parsed web url ≡ some p
      → on_host host url ≡ str_eq p.host host
  on_host_parsed host url p e =
      ap (λ o. elim o as (λ _. Bool) [ none ↦ false | some p ↦ str_eq p.host host ]) e

  on_host_unparsed : (host url : String) → url_parsed web url ≡ none → on_host host url ≡ false
  on_host_unparsed host url e =
      ap (λ o. elim o as (λ _. Bool) [ none ↦ false | some p ↦ str_eq p.host host ]) e

  -- The fetches of the host that start with these permissions.
  unfoldable started : String → List GfqRecord → ℕ
  started host [] = 0
  started host (gfq ∷ gfqs) = (if on_host host gfq.url then 1 else 0) + started host gfqs

  -- How many of `n` running fetches of the host go on behind these results.
  unfoldable going_on : String → List FetchResult → ℕ → ℕ
  going_on host [] n = n
  going_on host (r ∷ rs) n = going_on host rs (if on_host host r.gfq.url then n - 1 else n)

  -- The fetches of the host that run after some calls, when `n` ran before them: each record of the host
  -- that `tryCrawl` returns as allowed starts one, and each result of the host ends one.
  unfoldable pub running : (level : LevelDb) → String → HostDb level.Db → List Call → ℕ → ℕ
  unfolding started going_on
  running level host d [] n = n
  running level host d (tries xs clock ∷ calls) n =
      let r = try_crawl web d xs clock in
      running level host r.state calls (n + started host r.allowed)
  running level host d (fetches rs ∷ calls) n =
      running level host (on_fetched web level d rs) calls (going_on host rs n)

module _ (web : Web) {Db : Type 0} (j : String) where
  -- The permission of a url is one for its host.
  started-tell :
      (c : Decision) (x : GfqRecord) (p : UrlParsed) (missing : String) (r : Tried Db GfqRecord)
      (n m : ℕ)
      → url_parsed web x.url ≡ some p
      → m ≡ n + added j p.host c
      → counter j r.state ≡ m + started web j r.allowed
      → counter j (tell c x missing r).state ≡ n + started web j (tell c x missing r).allowed
  unfolding tell started
  started-tell allow x p missing r n m e k h =
      rw (on_host_parsed web j x.url p e) (elim (Bool-cases (str_eq p.host j)) [
        | inl t ↦ rw t (omega (arith, h, k ∙ ap (λ b. n + (if b then 1 else 0)) t))
        | inr t ↦ rw t (omega (arith, h, k ∙ ap (λ b. n + (if b then 1 else 0)) t))
      ])
  started-tell _ x p missing r n m e k h = omega (arith, h, k, added_refused j p.host n)

  counter-try_crawl_loop :
      (d : HostDb Db) (xs : List GfqRecord) (clock : ℕ → Clock)
      → let r = try_crawl_loop web (λ gfq. gfq.url) (λ gfq p. gfq) d xs clock in
        counter j r.state ≡ counter j d + started web j r.allowed
  unfolding try_crawl_loop tell_unparsed started
  counter-try_crawl_loop d [] clock = omega arith
  counter-try_crawl_loop d (x ∷ xs) clock = elim (Option-cases (url_parsed web x.url)) [
    | inl e ↦ rw (e, try_crawl_loop) (counter-try_crawl_loop d xs (λ i. clock (suc i)))
    | inr (p, e) ↦
        let t = try_crawl_url web d p (clock 0) in
        rw (e, try_crawl_loop)
          (started-tell t.1 x p t.2
            (try_crawl_loop web (λ gfq. gfq.url) (λ gfq p. gfq) t.0 xs (λ i. clock (suc i)))
            (counter j d) (counter j t.0) e (counter-try_crawl_url web j d p (clock 0))
            (counter-try_crawl_loop t.0 xs (λ i. clock (suc i))))
  ]

module _ (web : Web) (level : LevelDb) (j : String) where
  open level use {Db}

  counter-end_crawling :
      (d : HostDb Db) (host : String)
      → counter j (end_crawling web level d host)
        ≡ (if str_eq host j then counter j d - 1 else counter j d)
  unfolding end_crawling dec_crawling
  counter-end_crawling d host =
      counter_insert j host (dec_crawling (freq_at host d.host_freq)) d.host_freq
      ∙ (elim (Bool-cases (str_eq host j)) [
        | inl t ↦ rw (t, (eq_iff host j).0 t) (ground arith)
        | inr t ↦ rw t refl
      ])

  counter-on_fetched_one :
      (d : HostDb Db) (r : FetchResult)
      → counter j (on_fetched_one web level d r)
        ≡ (if on_host web j r.gfq.url then counter j d - 1 else counter j d)
  unfolding on_fetched_one save_robots
  counter-on_fetched_one d r = elim (Option-cases (url_parsed web r.gfq.url)) [
    | inl e ↦ rw (on_host_unparsed web j r.gfq.url e, e, on_fetched_one) refl
    | inr (p, e) ↦
        rw (on_host_parsed web j r.gfq.url p e, e, on_fetched_one)
          (elim (Bool-cases (is_robots r.gfq && is_ok r)) [
            | inl t ↦ rw t (counter-end_crawling d p.host)
            | inr t ↦ rw t (counter-end_crawling d p.host)
          ])
  ]

  counter-on_fetched :
      (d : HostDb Db) (rs : List FetchResult)
      → counter j (on_fetched web level d rs) ≡ going_on web j rs (counter j d)
  unfolding on_fetched going_on
  counter-on_fetched d [] = refl
  counter-on_fetched d (r ∷ rs) =
      counter-on_fetched (on_fetched_one web level d r) rs
      ∙ ap (going_on web j rs) (counter-on_fetched_one d r)

  running-counter :
      (d : HostDb Db) (calls : List Call)
      → running web level j d calls (counter j d) ≡ counter j (run web level d calls)
  unfolding running run try_crawl
  running-counter d [] = refl
  running-counter d (tries xs clock ∷ calls) =
      ap (running web level j (try_crawl web d xs clock).state calls)
        (sym (counter-try_crawl_loop web j d xs clock))
      ∙ running-counter (try_crawl web d xs clock).state calls
  running-counter d (fetches rs ∷ calls) =
      ap (running web level j (on_fetched web level d rs) calls) (sym (counter-on_fetched d rs))
      ∙ running-counter (on_fetched web level d rs) calls

  -- After any sequence of `tryCrawl` and `onFetched` calls on a freshly opened table, the running fetches
  -- of a host, which are the records of it that `tryCrawl` has returned as allowed, less one for each of
  -- its results while any runs, are no more than the parallel limit, or than 1 where that limit is below
  -- 1; and the counter of the host is their number.
  pub running-le_cap :
      (limits : CrawlLimits) (db : Db) (calls : List Call)
      → let d = open_db web level limits db in
        (running web level j d calls 0 ≤ cap limits)
        × ((freq_at j (run web level d calls).host_freq).crawling_now
            ≡ running web level j d calls 0)
  unfolding open_db freq_at new find
  running-le_cap limits db calls =
      let d = open_db web level limits db in
      let same : running web level j d calls 0 ≡ counter j (run web level d calls) =
        running-counter d calls in
      (
        omega (
          arith,
          same,
          freq_at-Within (cap limits) j (run web level d calls).host_freq
              (run-Within web level limits db calls),
        ),
        sym same,
      )
