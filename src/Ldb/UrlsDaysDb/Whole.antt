-- ===== src/Ldb/UrlsDaysDb/Whole.antt =====
-- src/ldb/UrlsDays.h: the dump of a whole table, which the tests use.
use contentv.Prelude.{
  ◌≡◌, sym, ap, ◌∙◌, subst, String, List, [], ◌∷◌, ◌++◌, Option, none, some, All, map,
}
use mathlib.Core.List.{append-nil, append_assoc}
use contentv.Prelude.Dict.{insert, IsUnique, insert_new}
use contentv.Prelude.Result.{Result, ok, throws, ◌>>=◌}
use contentv.Ldb.Store.{LevelDb}
use contentv.Ldb.UrlsDays.{Calendar, UrlDays, UrlsDays}
use contentv.Ldb.UrlsDays.Visits.{IsTable}
use contentv.Ldb.UrlsDaysDb.{DaysCodec, dump_days, load_days}
use contentv.Ldb.UrlsDaysDb.Reopen.{load_days-dump_days}

-- The generated code of src/proto/UrlsDays.proto: a serialised message parses to itself.
pub record WholeCodec : Type 0 where
  pub serialize : List String → String
  pub parse : String → Option (List String)
  pub parse-serialize : (texts : List String) → parse (serialize texts) ≡ some texts

module _ (codec : DaysCodec) (whole : WholeCodec) where
  -- `dump`
  unfoldable pub dump_table : UrlsDays → String
  unfolding dump_days
  dump_table s = whole.serialize (map (λ e. dump_days codec e.1) s)

  -- The loop of the constructor: an entry stands under the url that it knows.
  unfoldable pub load_texts : List String → UrlsDays → Result UrlsDays
  unfolding load_days
  load_texts [] s = ok s
  load_texts (text ∷ texts) s = do d ← load_days codec text; load_texts texts (insert d.url d s)

  -- The constructor from a dump.
  unfoldable pub load_table : String → Result UrlsDays
  unfolding load_texts
  load_table text = elim (whole.parse text) [
    | none ↦ throws "UrlsDays::UrlsDays parsing"
    | some texts ↦ load_texts texts []
  ]

  load_texts-append :
      (cal : Calendar) (level : LevelDb) (s t : UrlsDays)
      → IsUnique (t ++ s)
      → All (λ (e : String × UrlDays). IsUnique e.1.day_visits) s
      → All (λ (e : String × UrlDays). e.1.url ≡ e.0) s
      → load_texts (map (λ e. dump_days codec e.1) s) t ≡ ok (t ++ s)
  unfolding load_texts
  load_texts-append cal level [] t u h k = ap ok (sym (append-nil t))
  load_texts-append cal level ((url, d) ∷ s) t u h k =
      rw (load_days-dump_days cal codec level d h.0) (
        let texts = map (λ (e : String × UrlDays). dump_days codec e.1) s in
        let t' = t ++ (url, d) ∷ [] in
        ap (λ u. load_texts texts (insert u d t)) k.0
        ∙ (ap (load_texts texts) (insert_new url d t s u)
            ∙ (load_texts-append cal level s t'
                  (subst IsUnique (sym (append_assoc t ((url, d) ∷ []) s)) u) h.1 k.1
                ∙ ap ok (append_assoc t ((url, d) ∷ []) s))))

  -- A table in which every entry knows its url comes back from its dump.
  load_table-dump_table :
      (cal : Calendar) (level : LevelDb) (s : UrlsDays)
      → IsTable cal s
      → All (λ (e : String × UrlDays). e.1.url ≡ e.0) s
      → load_table (dump_table s) ≡ ok s
  unfolding load_table dump_table
  load_table-dump_table cal level s t k =
      rw (whole.parse-serialize (map (λ e. dump_days codec e.1) s), load_table)
        (load_texts-append cal level s [] t.0 t.1 k)
