-- ===== src/Ldb/HostDb.antt =====
-- src/ldb/HostDb.h and HostDb.cpp: every fetch asks this table for permission. Each method is one
-- step under its mutex.
pub mod Limits
pub mod Counter
pub mod Running
pub mod Permits
pub mod Fetched
use contentv.Prelude.{
  ℕ, suc, String, List, [], ◌∷◌, ◌++◌, Option, none, some, Bool, true, false, not, ◌&&◌, str_eq,
  if◌then◌else◌,
}
use contentv.Prelude.Dict.{Dict, find, insert, add_to_set}
use contentv.Core.Url.{Web, UrlParsed, url_parsed, robots_allow, is_robots_url}
use contentv.Core.Records.{GfqRecord, FetchResult, is_robots, is_ok}
use contentv.Core.FreqMap.{UrlFreq}
use contentv.Core.HostFreq.{HostFreq, CrawlLimits, Readings, is_allowed, inc_crawling, dec_crawling}
use contentv.Core.HostFreq
use contentv.Ldb.Store.{LevelDb}

-- `host_robots` holds the text of each host's robots.txt; `db` is the table on disk.
pub record HostDb (Db : Type 0) : Type 0 where
  pub limits : CrawlLimits
  pub host_freq : Dict HostFreq
  pub global_freq : HostFreq
  pub host_robots : Dict String
  pub db : Db

pub data Decision : Type 0 where
  allow need_robots by_robots url_parsing by_freq : Decision

-- The clock readings for one url: those of `isAllowed` for the host and for the whole system, and
-- those of `incCrawling` for both.
pub record Clock : Type 0 where
  pub ask_host : Readings
  pub ask_global : Readings
  pub inc_host : Readings
  pub inc_global : Readings

-- `m_host_freq[host]`, which a missing key makes a new entry.
unfoldable pub freq_at : String → Dict HostFreq → HostFreq
unfolding HostFreq.new
freq_at host m = elim (find host m) [ none ↦ HostFreq.new | some h ↦ h ]

module _ (web : Web) {Db : Type 0} where
  -- The answer, and the url of the robots.txt that is missing, or the empty text.
  unfoldable pub is_allowed_robots : HostDb Db → UrlParsed → Bool × String
  unfolding is_robots_url robots_allow
  is_allowed_robots d p = if is_robots_url p then (true, "") else elim (find p.host d.host_robots) [
    | none ↦ (false, p.robots)
    | some text ↦ (robots_allow web text p.normalized, "")
  ]

  -- Both calls of `isAllowed` clean the windows of the object that they are made on.
  unfoldable pub ask_freq : HostDb Db → String → HostFreq → Clock → HostDb Db × Bool
  unfolding is_allowed
  ask_freq d host h clock =
      let (h', fits) = is_allowed d.limits clock.ask_host h in
      let d' = record d { host_freq = insert host h' d.host_freq } in
      let (g, fits_global) = is_allowed d.limits clock.ask_global d.global_freq in
      if fits then (record d' { global_freq = g }, fits_global) else (d', false)

  unfoldable pub is_allowed_freq : HostDb Db → String → Clock → HostDb Db × Bool
  unfolding ask_freq
  is_allowed_freq d host clock = elim (find host d.host_freq) [
    | none ↦ (d, true)
    | some h ↦ ask_freq d host h clock
  ]

  unfoldable pub set_crawling : HostDb Db → String → Clock → HostDb Db
  unfolding freq_at inc_crawling
  set_crawling d host clock = record d {
    host_freq = insert host (inc_crawling clock.inc_host (freq_at host d.host_freq)) d.host_freq;
    global_freq = inc_crawling clock.inc_global d.global_freq;
  }

  unfoldable pub try_freq : HostDb Db → String → Clock → HostDb Db × Decision
  unfolding is_allowed_freq set_crawling
  try_freq d host clock =
      let (d', fits) = is_allowed_freq d host clock in
      if fits then (set_crawling d' host clock, allow) else (d', by_freq)

  -- `_tryCrawl`: the new state, the decision, and the robots.txt that is missing, or "".
  unfoldable pub try_crawl_url : HostDb Db → UrlParsed → Clock → HostDb Db × Decision × String
  unfolding is_allowed_robots try_freq
  try_crawl_url d p clock =
      let (fine, missing) = is_allowed_robots d p in
      let (d', decision) = try_freq d p.host clock in
      if fine
      then (d', decision, missing)
      else if not (str_eq missing "")
      then (d, need_robots, missing)
      else (d, by_robots, missing)

-- What `tryCrawl` has done and returned. The order of `missing` is that of an unordered set.
pub record Tried (Db A : Type 0) : Type 0 where
  pub state : HostDb Db
  pub decisions : List Decision
  pub allowed : List A
  pub missing : List String

-- What one decision adds to the results, in front of those of the urls behind it.
unfoldable pub tell : {Db A : Type 0} → Decision → A → String → Tried Db A → Tried Db A
tell allow x missing r = record r { decisions = allow ∷ r.decisions; allowed = x ∷ r.allowed }
tell need_robots x missing r = record r {
  decisions = need_robots ∷ r.decisions;
  missing = add_to_set missing r.missing;
}
tell other x missing r = record r { decisions = other ∷ r.decisions }

unfoldable pub tell_unparsed : {Db A : Type 0} → Tried Db A → Tried Db A
tell_unparsed r = record r { decisions = url_parsing ∷ r.decisions }

abbrev is_some : Option String → Bool
is_some none = false
is_some (some x) = true

module _ (web : Web) {Db : Type 0} where
  -- The loop of `tryCrawl`; `clock i` has the readings for the i-th url. The two overloads differ
  -- in the url of an element and in what they push for an allowed one.
  module _ {A : Type 0} (url_of : A → String) (pushed : A → UrlParsed → A) where
    unfoldable pub try_crawl_loop : HostDb Db → List A → (ℕ → Clock) → Tried Db A
    unfolding url_parsed try_crawl_url tell tell_unparsed
    try_crawl_loop d [] clock = record { state = d; decisions = []; allowed = []; missing = [] }
    try_crawl_loop d (x ∷ xs) clock = elim (url_parsed web (url_of x)) [
      | none ↦ tell_unparsed (try_crawl_loop d xs (λ i. clock (suc i)))
      | some p ↦
          let t = try_crawl_url web d p (clock 0) in
          tell t.1 (pushed x p) t.2 (try_crawl_loop t.0 xs (λ i. clock (suc i)))
    ]

  -- The overload for urls pushes the normalized url.
  unfoldable pub try_crawl_urls : HostDb Db → List String → (ℕ → Clock) → Tried Db String
  unfolding try_crawl_loop
  try_crawl_urls = try_crawl_loop (λ url. url) (λ url p. p.normalized)

  -- The overload for queue records, which the scheduler calls, pushes the record itself.
  unfoldable pub try_crawl : HostDb Db → List GfqRecord → (ℕ → Clock) → Tried Db GfqRecord
  unfolding try_crawl_loop
  try_crawl = try_crawl_loop (λ gfq. gfq.url) (λ gfq p. gfq)

  -- The urls that robots.txt lets through, normalized, and the robots.txt files that are missing,
  -- each with the frequency of its url.
  unfoldable pub leave_allowed_by_robots : HostDb Db → List UrlFreq → List UrlFreq × List UrlFreq
  unfolding url_parsed is_allowed_robots
  leave_allowed_by_robots d [] = ([], [])
  leave_allowed_by_robots d (e ∷ es) =
      let rest = leave_allowed_by_robots d es in
      elim (url_parsed web e.0) [
        | none ↦ rest
        | some p ↦
            let (fine, missing) = is_allowed_robots web d p in
            if fine
            then ((p.normalized, e.1) ∷ rest.0, rest.1)
            else if not (str_eq missing "")
            then (rest.0, (missing, e.1) ∷ rest.1)
            else rest
      ]

  unfoldable pub has_robots : HostDb Db → String → Bool
  unfolding url_parsed
  has_robots d url = elim (url_parsed web url) [
    | none ↦ false
    | some p ↦ is_some (find p.host d.host_robots)
  ]

module _ (web : Web) (level : LevelDb) where
  open level use {Db, put, scan}

  unfoldable pub end_crawling : HostDb Db → String → HostDb Db
  unfolding freq_at dec_crawling
  end_crawling d host = record d {
    host_freq = insert host (dec_crawling (freq_at host d.host_freq)) d.host_freq;
    global_freq = dec_crawling d.global_freq;
  }

  -- A failed write is only logged: the file is in memory all the same.
  unfoldable pub save_robots : HostDb Db → String → String → HostDb Db
  save_robots d host text = record d {
    host_robots = insert host text d.host_robots;
    db = (put host text d.db).1;
  }

  unfoldable pub on_fetched_one : HostDb Db → FetchResult → HostDb Db
  unfolding url_parsed end_crawling save_robots is_robots is_ok
  on_fetched_one d r = elim (url_parsed web r.gfq.url) [
    | none ↦ d
    | some p ↦
        if is_robots r.gfq && is_ok r
        then save_robots (end_crawling d p.host) p.host r.content
        else end_crawling d p.host
  ]

  unfoldable pub on_fetched : HostDb Db → List FetchResult → HostDb Db
  unfolding on_fetched_one
  on_fetched d [] = d
  on_fetched d (r ∷ rs) = on_fetched (on_fetched_one d r) rs

  unfoldable pub on_robots_txt : HostDb Db → String → String → HostDb Db
  unfolding url_parsed end_crawling save_robots
  on_robots_txt d robots_url text = elim (url_parsed web robots_url) [
    | none ↦ d
    | some p ↦ save_robots (end_crawling d p.host) p.host text
  ]

  -- `_loadRobotsDb`: the loop over the table on disk.
  unfoldable pub load_robots : Dict String → Dict String → Dict String
  load_robots m [] = m
  load_robots m ((host, text) ∷ rest) = load_robots (insert host text m) rest

  -- The constructor, on the opened table.
  unfoldable pub open_db : CrawlLimits → Db → HostDb Db
  unfolding HostFreq.new load_robots
  open_db limits db = record {
    limits = limits;
    host_freq = [];
    global_freq = HostFreq.new;
    host_robots = load_robots [] (scan db);
    db = db;
  }
