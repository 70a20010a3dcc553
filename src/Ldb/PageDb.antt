-- ===== src/Ldb/PageDb.antt =====
-- src/ldb/PageDb.cpp: the texts of the fetched pages, by url.
use contentv.Prelude.{String, List, Option}
use contentv.Prelude.Result.{Result}
use contentv.Ldb.Lvl.{LvlDb}

module _ (lvl : LvlDb) where
  unfoldable pub save : String → String → lvl.Db → Result lvl.Db
  save url content d = lvl.save url content d

  unfoldable pub load : String → lvl.Db → Option String
  load url d = lvl.load url d

  -- The urls and contents that the callback is called with.
  unfoldable pub scan_full : lvl.Db → List (String × String)
  scan_full d = lvl.scan_full d
