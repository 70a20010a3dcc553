-- ===== src/Ldb/Store.antt =====
-- LevelDB, as the tables of src/ldb use it: an ordered map from texts to texts on disk. It is not
-- part of the repository, so it is a parameter with its documented laws. `put` returns whether the
-- write has succeeded, and the table after it; about a failed write nothing is assumed.
use contentv.Prelude.{◌≡◌, String, Option, none, some, Bool, true, str_eq, if◌then◌else◌}
use contentv.Prelude.Dict.{Dict, find, IsUnique}

pub record LevelDb : Type 1 where
  pub Db : Type 0
  pub put : String → String → Db → Bool × Db
  pub del : String → Db → Db
  pub get : String → Db → Option String
  -- what an iterator over the whole table meets
  pub scan : Db → Dict String
  pub get-put :
      (k j v : String) (d : Db)
      → (put k v d).0 ≡ true
      → get j (put k v d).1 ≡ (if str_eq k j then some v else get j d)
  pub get-del : (k j : String) (d : Db) → get j (del k d) ≡ (if str_eq k j then none else get j d)
  pub find-scan : (k : String) (d : Db) → find k (scan d) ≡ get k d
  pub scan-IsUnique : (d : Db) → IsUnique (scan d)
