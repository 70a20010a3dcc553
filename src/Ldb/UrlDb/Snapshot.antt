-- ===== src/Ldb/UrlDb/Snapshot.antt =====
-- src/ldb/UrlDbSnapThread.cpp and UrlDbLoad.cpp: the table after a snapshot and a restart.
use contentv.Prelude.{◌≡◌, refl, ap, ◌∙◌, String, [], ◌∷◌, some, true, All}
use contentv.Prelude.Dict.{Dict, find, insert, IsUnique}
use contentv.Prelude.Result.{ok, bind_ext}
use contentv.Core.Attempts.{CrawlAttempts}
use contentv.Core.Attempts.Dump.{Codec, dump, load, IsRounded, load-dump}
use contentv.Ldb.Store.{LevelDb}
use contentv.Ldb.Dumps.{
  put_all, put_each, put_each-put_all, load_all, Reloads, Loads, load_all-put_all,
}
use contentv.Ldb.UrlDb.{UrlDb, load_entries, load_data, snap_data}

module _ (codec : Codec) (level : LevelDb) where
  open level use {Db, put, scan}

  snap_data-put_each :
      (db : UrlDb) (disk : Db)
      → snap_data codec level db disk ≡ put_each (dump codec) (load codec) level db disk
  unfolding snap_data put_each
  snap_data-put_each [] disk = refl
  snap_data-put_each ((url, l) ∷ db) disk = snap_data-put_each db (put url (dump codec l) disk).1

  load_entries-load_all :
      (db : UrlDb) (es : Dict String)
      → load_entries codec level db es ≡ load_all (dump codec) (load codec) level db es
  unfolding load_entries load_all
  load_entries-load_all db [] = refl
  load_entries-load_all db ((url, text) ∷ es) =
      bind_ext (load codec text) _ _ (λ l. load_entries-load_all (insert url l db) es)

  abbrev pub IsRoundedDb : UrlDb → Type 0
  IsRoundedDb = All (λ (e : String × CrawlAttempts). IsRounded codec e.1)

  IsRoundedDb-Reloads : (db : UrlDb) → IsRoundedDb db → Reloads (dump codec) (load codec) level db
  IsRoundedDb-Reloads [] r = tt
  IsRoundedDb-Reloads (e ∷ db) r = (load-dump codec e.1 r.0, IsRoundedDb-Reloads db r.1)

  -- A snapshot of the table, written over a disk that can be loaded, can be loaded after a restart,
  -- and a url that the table knew has then the attempts that it had, when the times of the table's
  -- attempts were rounded, no url stands in it twice and no write of the snapshot fails.
  pub load_data-snap_data :
      (db : UrlDb) (disk : Db) (url : String) (l : CrawlAttempts)
      → IsUnique db
      → IsRoundedDb db
      → All (Loads (dump codec) (load codec) level) (scan disk)
      → find url db ≡ some l
      → (put_all (dump codec) (load codec) level db disk).0 ≡ true
      → (db' : UrlDb) × (load_data codec level (snap_data codec level db disk) ≡ ok db')
        × (find url db' ≡ some l)
  unfolding load_data
  load_data-snap_data db disk url l u r a e w =
      let t =
        load_all-put_all (dump codec) (load codec) level db disk url l u (IsRoundedDb-Reloads db r)
          a e w in
      (
        t.0,
        ap (λ d. load_data codec level d)
              (snap_data-put_each db disk
                ∙ put_each-put_all (dump codec) (load codec) level db disk w)
            ∙ (load_entries-load_all [] (scan (put_all (dump codec) (load codec) level db disk).1)
                ∙ t.1),
        t.2,
      )
