-- ===== src/Ldb/HostDb/Fetched.antt =====
-- src/ldb/HostDb.cpp: the robots.txt files in memory and on disk.
use contentv.Prelude.{
  ◌≡◌, refl, sym, true, ◌∙◌, String, List, [], ◌∷◌, none, some, ◌&&◌, arith, eq_iff, Bool-cases,
  Option-cases, inl, inr,
}
use contentv.Prelude.Dict.{Dict, find, insert, IsUnique, find-insert}
use contentv.Core.Url.{Web, url_parsed}
use contentv.Core.Records.{FetchResult, is_robots, is_ok}
use contentv.Core.HostFreq.{CrawlLimits}
use contentv.Ldb.Store.{LevelDb}
use contentv.Ldb.HostDb.{
  HostDb, load_robots, open_db, end_crawling, save_robots, on_fetched_one, on_fetched,
}

module _ (web : Web) (level : LevelDb) where
  open level use {Db, put, get, scan, get-put, find-scan, scan-IsUnique}

  -- Memory and disk hold the same file for every host.
  abbrev pub Synced : HostDb Db → Type 0
  Synced d = (host : String) → find host d.host_robots ≡ get host d.db

  find-load_robots :
      (k : String) (m l : Dict String)
      → IsUnique l
      → find k (load_robots web level m l)
        ≡ elim (find k l) [ none ↦ find k m | some text ↦ some text ]
  unfolding load_robots find
  find-load_robots k m [] u = refl
  find-load_robots k m ((h, t) ∷ l) u =
      ground (arith, eq_iff h k, find-insert h k t m, find-load_robots k (insert h t m) l u.1, u.0)

  pub open_db-Synced : (limits : CrawlLimits) (db : Db) → Synced (open_db web level limits db)
  unfolding open_db find
  open_db-Synced limits db host =
      find-load_robots host [] (scan db) (scan-IsUnique db) ∙ ground (arith, find-scan host db)

  -- The robots.txt files among the results are written: the write of no text that was fetched fails.
  abbrev pub AreWritten : HostDb Db → List FetchResult → Type 0
  AreWritten d [] = Unit
  AreWritten d (r ∷ rs) =
      ((host : String) → (put host r.content d.db).0 ≡ true)
      × AreWritten (on_fetched_one web level d r) rs

  on_fetched_one-Synced :
      (d : HostDb Db) (r : FetchResult)
      → ((host : String) → (put host r.content d.db).0 ≡ true)
      → Synced d
      → Synced (on_fetched_one web level d r)
  unfolding on_fetched_one end_crawling save_robots
  on_fetched_one-Synced d r w s host = elim (Option-cases (url_parsed web r.gfq.url)) [
    | inl e ↦ rw (e, on_fetched_one) (s host)
    | inr (p, e) ↦
        rw (e, on_fetched_one)
          (elim (Bool-cases (is_robots r.gfq && is_ok r)) [
            | inl t ↦ rw t (
                ground (
                  arith,
                  s host,
                  find-insert p.host host r.content d.host_robots,
                  get-put p.host host r.content d.db (w p.host),
                ))
            | inr t ↦ rw t (s host)
          ])
  ]

  on_fetched-Synced :
      (d : HostDb Db) (rs : List FetchResult)
      → AreWritten d rs
      → Synced d
      → Synced (on_fetched web level d rs)
  unfolding on_fetched
  on_fetched-Synced d [] w s = s
  on_fetched-Synced d (r ∷ rs) w s =
      on_fetched-Synced (on_fetched_one web level d r) rs w.1 (on_fetched_one-Synced d r w.0 s)

  -- The table that is opened on the disk state behind any fetch results has, for every host, the
  -- robots.txt that the running table has, when the write of no fetched text fails: then nothing is
  -- lost by a restart.
  pub reopen-on_fetched :
      (limits : CrawlLimits) (db : Db) (rs : List FetchResult) (host : String)
      → AreWritten (open_db web level limits db) rs
      → let d = on_fetched web level (open_db web level limits db) rs in
        find host (open_db web level limits d.db).host_robots ≡ find host d.host_robots
  unfolding open_db on_fetched find
  reopen-on_fetched limits db rs host w =
      let d = on_fetched web level (open_db web level limits db) rs in
      open_db-Synced limits d.db host
      ∙ sym (on_fetched-Synced (open_db web level limits db) rs w (open_db-Synced limits db) host)
