-- ===== src/Ldb/QueryDb.antt =====
-- src/ldb/QueryDb.h and .cpp: the groups of queries and their hits, in two tables.
pub mod Keyed
use contentv.Prelude.{String, List, [], ◌∷◌, ◌++◌, Option, none, some}
use contentv.Prelude.Text.{◌<>◌}
use contentv.Prelude.Dict.{Dict}
use contentv.Prelude.Result.{Result, ok, throws, ◌>>=◌}
use contentv.Core.QueryGroup.{Kind, queries, hits, Group, GroupCodec, dump, load}
use contentv.Ldb.Lvl.{LvlDb}

pub record QueryDb (Db : Type 0) : Type 0 where
  pub qg_db : Db
  pub qg_hits_db : Db

-- What a method with an `_err_str` leaves: the tables, and the message where it returns false.
pub record Outcome (Db : Type 0) : Type 0 where
  pub tables : QueryDb Db
  pub err_str : Option String

-- The `try` block of such a method.
unfoldable pub outcome : {Db : Type 0} → String → QueryDb Db → Result (QueryDb Db) → Outcome Db
outcome method d (ok d') = record { tables = d'; err_str = none }
outcome method d (throws what) = record { tables = d; err_str = some (method <> what) }

module _ (codec : GroupCodec) where
  -- none where the constructor of the group is not reached.
  unfoldable pub load_found : Kind → Option String → Result (Option Group)
  load_found k none = ok none
  load_found k (some text) = do g ← load codec k text; ok (some g)

  -- The callback of `scanFull`, which appends a group for each entry.
  unfoldable pub load_all : Kind → Dict String → Result (List Group)
  load_all k [] = ok []
  load_all k ((key, text) ∷ es) = do g ← load codec k text; gs ← load_all k es; ok (g ∷ gs)

module _ (lvl : LvlDb) (codec : GroupCodec) where
  abbrev Tables : Type 0
  Tables = QueryDb lvl.Db

  -- `saveQG(_qg)`
  unfoldable pub save_qg_or_throw : Group → Tables → Result Tables
  save_qg_or_throw qg d = do
    db ← lvl.save qg.gid (dump codec queries qg) d.qg_db
    ok (record d { qg_db = db })

  unfoldable pub save_qg : Group → Tables → Outcome lvl.Db
  unfolding save_qg_or_throw outcome
  save_qg qg d = outcome "QueryDb::saveQG " d (save_qg_or_throw qg d)

  -- `deleteQG(_gid)`
  unfoldable pub delete_qg_or_throw : String → Tables → Result Tables
  delete_qg_or_throw gid d = do db ← lvl.del gid d.qg_db; ok (record d { qg_db = db })

  unfoldable pub delete_qg : String → Tables → Outcome lvl.Db
  unfolding delete_qg_or_throw outcome
  delete_qg gid d = outcome "QueryDb::deleteQG " d (delete_qg_or_throw gid d)

  unfoldable pub load_qg : String → Tables → Result (Option Group)
  unfolding load_found
  load_qg gid d = load_found codec queries (lvl.load gid d.qg_db)

  unfoldable pub get_all_qg : Tables → Result (List Group)
  unfolding load_all
  get_all_qg d = load_all codec queries (lvl.scan_full d.qg_db)

  -- `saveQGHits(_cg_hits)`
  unfoldable pub save_qg_hits_or_throw : Group → Tables → Result Tables
  save_qg_hits_or_throw qg_hits d = do
    db ← lvl.save qg_hits.gid (dump codec hits qg_hits) d.qg_hits_db
    ok (record d { qg_hits_db = db })

  unfoldable pub save_qg_hits : Group → Tables → Outcome lvl.Db
  unfolding save_qg_hits_or_throw outcome
  save_qg_hits qg_hits d = outcome "QueryDb::saveQGHits " d (save_qg_hits_or_throw qg_hits d)

  unfoldable pub load_qg_hits : String → Tables → Result (Option Group)
  unfolding load_found
  load_qg_hits gid d = load_found codec hits (lvl.load gid d.qg_hits_db)

  unfoldable pub get_all_qg_hits : Tables → Result (List Group)
  unfolding load_all
  get_all_qg_hits d = load_all codec hits (lvl.scan_full d.qg_hits_db)

  -- `deleteQGHits(_gid)`
  unfoldable pub delete_qg_hits_or_throw : String → Tables → Result Tables
  delete_qg_hits_or_throw gid d = do
    db ← lvl.del gid d.qg_hits_db
    ok (record d { qg_hits_db = db })

  unfoldable pub delete_qg_hits : String → Tables → Outcome lvl.Db
  unfolding delete_qg_hits_or_throw outcome
  delete_qg_hits gid d = outcome "QueryDb::deleteQGHits " d (delete_qg_hits_or_throw gid d)
