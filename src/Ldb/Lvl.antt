-- ===== src/Ldb/Lvl.antt =====
-- `misc::LvlDb`, a wrapper of LevelDB in the submodule src/misc, as src/ldb/QueryDb.cpp and
-- src/ldb/PageDb.cpp use it: a table from texts to texts whose writes may throw. A write that throws
-- leaves the table as it was, as LevelDB's documentation promises of a write that fails.
use contentv.Prelude.{◌≡◌, String, Option, none, some, str_eq, if◌then◌else◌}
use contentv.Prelude.Dict.{Dict, find, IsUnique}
use contentv.Prelude.Result.{Result, ok}

pub record LvlDb : Type 1 where
  pub Db : Type 0
  pub save : String → String → Db → Result Db
  pub del : String → Db → Result Db
  -- none where `load` returns false
  pub load : String → Db → Option String
  -- what `scanFull` calls its callback with
  pub scan_full : Db → Dict String
  pub load-save :
      (k j v : String) (d d' : Db)
      → save k v d ≡ ok d'
      → load j d' ≡ (if str_eq k j then some v else load j d)
  pub load-del :
      (k j : String) (d d' : Db)
      → del k d ≡ ok d'
      → load j d' ≡ (if str_eq k j then none else load j d)
  pub find-scan_full : (k : String) (d : Db) → find k (scan_full d) ≡ load k d
  pub scan_full-IsUnique : (d : Db) → IsUnique (scan_full d)
