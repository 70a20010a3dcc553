-- ===== src/Ldb/HostDb/Limits.antt =====
-- src/ldb/HostDb.cpp: how many fetches of one host run at a time.
use contentv.Prelude.{
  ℕ, suc, ◌≤◌, ◌<◌, ◌≡◌, refl, max, String, List, [], ◌∷◌, none, some, true, ◌&&◌, arith, All,
  str_eq, Bool-cases, Option-cases, inl, inr, not,
}
use contentv.Prelude.Dict.{Dict, find, insert, find-insert_self, All-insert, find-All}
use contentv.Prelude.Int.{pos_part}
use contentv.Core.Url.{Web, UrlParsed, url_parsed}
use contentv.Core.Records.{GfqRecord, FetchResult, is_robots, is_ok}
use contentv.Core.HostFreq.{HostFreq, CrawlLimits, is_allowed, inc_crawling, dec_crawling, new}
use contentv.Core.HostFreq.Laws.{is_allowed-crawling_now, is_allowed-below}
use contentv.Ldb.Store.{LevelDb}
use contentv.Ldb.HostDb.{
  HostDb, Decision, allow, Clock, Tried, freq_at, is_allowed_robots, ask_freq, is_allowed_freq,
  set_crawling, try_freq, try_crawl_url, tell, tell_unparsed, try_crawl_loop, try_crawl,
  end_crawling, save_robots, on_fetched_one, on_fetched, open_db,
}

-- The most fetches of one host that may run: the configured limit, or 1 if that is below 1.
abbrev pub cap : CrawlLimits → ℕ
cap limits = max 1 (pos_part limits.max_host_parallel_crawl)

abbrev pub Within : ℕ → Dict HostFreq → Type 0
Within n = All (λ e. e.1.crawling_now ≤ n)

pub record IsWithin (n : ℕ) {Db : Type 0} (d : HostDb Db) : Type 0 where
  pub same_cap : cap d.limits ≡ n
  pub hosts : Within n d.host_freq

freq_at-none :
    (host : String) (m : Dict HostFreq) → find host m ≡ none → (freq_at host m).crawling_now ≡ 0
unfolding freq_at new
freq_at-none host m e = rw (e, freq_at) refl

freq_at-some :
    (host : String) (m : Dict HostFreq) (h : HostFreq) → find host m ≡ some h → freq_at host m ≡ h
unfolding freq_at
freq_at-some host m h e = rw (e, freq_at) refl

pub freq_at-Within :
    (n : ℕ) (host : String) (m : Dict HostFreq) → Within n m → (freq_at host m).crawling_now ≤ n
freq_at-Within n host m w = elim (Option-cases (find host m)) [
  | inl e ↦ rw (freq_at-none host m e) (omega arith)
  | inr (h, e) ↦ rw (freq_at-some host m h e) (find-All (λ x. x.1.crawling_now ≤ n) host h m w e)
]

module _ (web : Web) {Db : Type 0} (n : ℕ) (d : HostDb Db) (host : String) (clock : Clock) where
  ask_freq_lem :
      (h : HostFreq)
      → find host d.host_freq ≡ some h
      → IsWithin n d
      → IsWithin n (ask_freq web d host h clock).0
        × ((ask_freq web d host h clock).1 ≡ true
            → (freq_at host (ask_freq web d host h clock).0.host_freq).crawling_now < n)
  unfolding ask_freq
  ask_freq_lem h e w =
      let h' = (is_allowed d.limits clock.ask_host h).0 in
      let same : h'.crawling_now ≡ h.crawling_now =
        is_allowed-crawling_now d.limits clock.ask_host h in
      let was : h.crawling_now ≤ n =
        find-All (λ x. x.1.crawling_now ≤ n) host h d.host_freq w.hosts e in
      let hosts : Within n (insert host h' d.host_freq) =
        All-insert (λ x. x.1.crawling_now ≤ n) host h' d.host_freq (omega arith) w.hosts in
      let there : freq_at host (insert host h' d.host_freq) ≡ h' =
        freq_at-some host (insert host h' d.host_freq) h' (find-insert_self host h' d.host_freq) in
      elim (Bool-cases (is_allowed d.limits clock.ask_host h).1) [
        | inl t ↦ rw t (
          record { same_cap = w.same_cap; hosts = hosts },
          λ _.
              rw there
                (omega (arith, (is_allowed-below d.limits clock.ask_host h t).0, w.same_cap)),
        )
        | inr t ↦ rw t (record { same_cap = w.same_cap; hosts = hosts }, λ f. cc)
      ]

  is_allowed_freq_lem :
      IsWithin n d
      → IsWithin n (is_allowed_freq web d host clock).0
        × ((is_allowed_freq web d host clock).1 ≡ true
            → (freq_at host (is_allowed_freq web d host clock).0.host_freq).crawling_now < n)
  unfolding is_allowed_freq
  is_allowed_freq_lem w = elim (Option-cases (find host d.host_freq)) [
    | inl e ↦
        rw (e, is_allowed_freq)
          (w, λ t. rw (freq_at-none host d.host_freq e) (omega (arith, w.same_cap)))
    | inr (h, e) ↦ rw (e, is_allowed_freq) (ask_freq_lem h e w)
  ]

  set_crawling-IsWithin :
      (freq_at host d.host_freq).crawling_now < n
      → IsWithin n d
      → IsWithin n (set_crawling web d host clock)
  unfolding set_crawling inc_crawling
  set_crawling-IsWithin lt w = record {
    same_cap = w.same_cap;
    hosts = All-insert (λ x. x.1.crawling_now ≤ n) host _ d.host_freq (omega arith) w.hosts;
  }

module _ (web : Web) {Db : Type 0} (n : ℕ) where
  try_freq-IsWithin :
      (d : HostDb Db) (host : String) (clock : Clock)
      → IsWithin n d
      → IsWithin n (try_freq web d host clock).0
  unfolding try_freq
  try_freq-IsWithin d host clock w =
      let l = is_allowed_freq_lem web n d host clock w in
      elim (Bool-cases (is_allowed_freq web d host clock).1) [
        | inl t ↦ rw t (
            set_crawling-IsWithin web n (is_allowed_freq web d host clock).0 host clock (l.1 t) l.0)
        | inr t ↦ rw t l.0
      ]

-- What every `_tryCrawl` keeps, the whole loop keeps.
module _ (web : Web) {Db : Type 0} (P : HostDb Db → Type 0)
    (keeps : (d : HostDb Db) (host : String) (clock : Clock)
      → P d
      → P (try_freq web d host clock).0) where
  try_crawl_url-keeps :
      (d : HostDb Db) (p : UrlParsed) (clock : Clock) → P d → P (try_crawl_url web d p clock).0
  unfolding try_crawl_url
  try_crawl_url-keeps d p clock h = elim (Bool-cases (is_allowed_robots web d p).0) [
    | inl t ↦ rw t (keeps d p.host clock h)
    | inr t ↦ rw t (elim (Bool-cases (not (str_eq (is_allowed_robots web d p).1 ""))) [
      | inl e ↦ rw e h
      | inr e ↦ rw e h
    ])
  ]

  tell-state :
      {A : Type 0} (c : Decision) (x : A) (missing : String) (r : Tried Db A)
      → (tell c x missing r).state ≡ r.state
  unfolding tell
  tell-state allow x missing r = refl
  tell-state _ x missing r = refl

  pub try_crawl_loop-keeps :
      {A : Type 0} (url_of : A → String) (pushed : A → UrlParsed → A) (d : HostDb Db) (xs : List A)
      (clock : ℕ → Clock)
      → P d
      → P (try_crawl_loop web url_of pushed d xs clock).state
  unfolding try_crawl_loop tell_unparsed
  try_crawl_loop-keeps url_of pushed d [] clock h = h
  try_crawl_loop-keeps url_of pushed d (x ∷ xs) clock h =
      elim (Option-cases (url_parsed web (url_of x))) [
        | inl e ↦
            rw (e, try_crawl_loop) (try_crawl_loop-keeps url_of pushed d xs (λ i. clock (suc i)) h)
        | inr (p, e) ↦
            rw (e, try_crawl_loop)
              (rw tell-state (
                try_crawl_loop-keeps url_of pushed (try_crawl_url web d p (clock 0)).0 xs
                  (λ i. clock (suc i)) (try_crawl_url-keeps d p (clock 0) h)))
      ]

module _ (web : Web) (level : LevelDb) where
  open level use {Db}

  dec_crawling-le : (h : HostFreq) (n : ℕ) → h.crawling_now ≤ n → (dec_crawling h).crawling_now ≤ n
  unfolding dec_crawling
  dec_crawling-le h n le = ground arith

  end_crawling-IsWithin :
      (n : ℕ) (d : HostDb Db) (host : String)
      → IsWithin n d
      → IsWithin n (end_crawling web level d host)
  unfolding end_crawling
  end_crawling-IsWithin n d host w = record {
    same_cap = w.same_cap;
    hosts =
        All-insert (λ x. x.1.crawling_now ≤ n) host _ d.host_freq
          (dec_crawling-le (freq_at host d.host_freq) n (freq_at-Within n host d.host_freq w.hosts))
          w.hosts;
  }

  on_fetched_one-IsWithin :
      (n : ℕ) (d : HostDb Db) (r : FetchResult)
      → IsWithin n d
      → IsWithin n (on_fetched_one web level d r)
  unfolding on_fetched_one save_robots
  on_fetched_one-IsWithin n d r w = elim (Option-cases (url_parsed web r.gfq.url)) [
    | inl e ↦ rw (e, on_fetched_one) w
    | inr (p, e) ↦
        rw (e, on_fetched_one)
          (let ended = end_crawling-IsWithin n d p.host w in
            elim (Bool-cases (is_robots r.gfq && is_ok r)) [
              | inl t ↦ rw t (record { same_cap = ended.same_cap; hosts = ended.hosts })
              | inr t ↦ rw t ended
            ])
  ]

  pub on_fetched-IsWithin :
      (n : ℕ) (d : HostDb Db) (rs : List FetchResult)
      → IsWithin n d
      → IsWithin n (on_fetched web level d rs)
  unfolding on_fetched
  on_fetched-IsWithin n d [] w = w
  on_fetched-IsWithin n d (r ∷ rs) w =
      on_fetched-IsWithin n (on_fetched_one web level d r) rs (on_fetched_one-IsWithin n d r w)

-- The calls that the scheduler makes while it runs.
pub data Call : Type 0 where
  tries : List GfqRecord → (ℕ → Clock) → Call
  fetches : List FetchResult → Call

module _ (web : Web) (level : LevelDb) where
  open level use {Db}

  unfoldable pub run : HostDb Db → List Call → HostDb Db
  run d [] = d
  run d (tries xs clock ∷ calls) = run (try_crawl web d xs clock).state calls
  run d (fetches rs ∷ calls) = run (on_fetched web level d rs) calls

  run_lem : (n : ℕ) (d : HostDb Db) (calls : List Call) → IsWithin n d → IsWithin n (run d calls)
  unfolding run try_crawl
  run_lem n d [] w = w
  run_lem n d (tries xs clock ∷ calls) w =
      run_lem n (try_crawl web d xs clock).state calls
        (try_crawl_loop-keeps web (IsWithin n) (try_freq-IsWithin web n) _ _ d xs clock w)
  run_lem n d (fetches rs ∷ calls) w =
      run_lem n (on_fetched web level d rs) calls (on_fetched-IsWithin web level n d rs w)

  -- After any sequence of `tryCrawl` and `onFetched` calls on a freshly opened table, no host has
  -- a counter above the parallel limit, or above 1 where that limit is below 1.
  pub run-Within :
      (limits : CrawlLimits) (db : Db) (calls : List Call)
      → All (λ e. e.1.crawling_now ≤ cap limits) (run (open_db web level limits db) calls).host_freq
  unfolding open_db
  run-Within limits db calls =
      (run_lem (cap limits) (open_db web level limits db) calls
        (record { same_cap = refl; hosts = tt })).hosts
