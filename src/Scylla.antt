-- ===== src/Scylla.antt =====
-- src/scylla: the texts of the fetched pages in a Scylla table. PageDbScyllaDetail.cpp has the queries,
-- PageDbScylla.cpp the interface `IPageDb` on them.
pub mod Pages
use Prim.Native.Char.{code}
use contentv.Prelude.{
  ℕ, zero, suc, ◌≡◌, String, List, [], ◌∷◌, Option, none, some, Bool, true, false, map, str_eq,
  ◌==◌, if◌then◌else◌,
}
use contentv.Prelude.Text.{◌<>◌}
use contentv.Prelude.Dict.{Dict, find, IsUnique}
use contentv.Prelude.Result.{Result, ok, throws}

-- What a future holds: the message of its error, or the rows, with the text that
-- `cass_value_get_string` gives for each of their columns.
pub data Answer : Type 0 where
  failed : String → Answer
  rows : List (List (Option String)) → Answer

abbrev pub upsert_query : String
upsert_query = "UPDATE contentv1.web_pages SET content=? WHERE url=?"

abbrev pub select_query : String
select_query = "SELECT content FROM contentv1.web_pages WHERE url = ?"

abbrev pub scan_query : String
scan_query = "SELECT url, content FROM contentv1.web_pages"

abbrev pub truncate_table_query : String
truncate_table_query = "TRUNCATE contentv1.web_pages"

-- The rows that `select_query` and `scan_query` ask for.
abbrev pub content_rows : Option String → List (List (Option String))
content_rows none = []
content_rows (some content) = (some content ∷ []) ∷ []

abbrev pub page_rows : Dict String → List (List (Option String))
page_rows = map (λ e. some e.0 ∷ some e.1 ∷ [])

-- The driver of the database, a parameter: a statement with the texts that are bound to it may fail at
-- any time; the table `web_pages` of src/scylla/schema.txt is keyed by the url, and a statement that
-- does not fail does to it what CQL says.
pub record Cass : Type 1 where
  pub Session : Type 0
  pub connect : String → Option Session
  pub execute : String → List String → Session → Session × Answer
  pub web_pages : Session → Dict String
  pub web_pages-IsUnique : (s : Session) → IsUnique (web_pages s)
  pub execute-upsert :
      (url content : String) (s : Session) (r : List (List (Option String)))
      → (execute upsert_query (content ∷ url ∷ []) s).1 ≡ rows r
      → (j : String)
      → find j (web_pages (execute upsert_query (content ∷ url ∷ []) s).0)
        ≡ (if str_eq url j then some content else find j (web_pages s))
  pub execute-select :
      (url : String) (s : Session) (r : List (List (Option String)))
      → (execute select_query (url ∷ []) s).1 ≡ rows r
      → r ≡ content_rows (find url (web_pages s))
  pub execute-scan :
      (s : Session) (r : List (List (Option String)))
      → (execute scan_query [] s).1 ≡ rows r
      → r ≡ page_rows (web_pages s)

-- What `c_str()` hands over: the text up to its first zero byte.
unfoldable pub c_str : String → String
c_str String.[] = String.[]
c_str (String.◌∷◌ c s) = let rest = c_str s in if code c == 0 then String.[] else String.◌∷◌ c rest

-- The text of a column of a row.
abbrev pub cell : ℕ → List (Option String) → Option String
cell n [] = none
cell zero (c ∷ row) = c
cell (suc n) (c ∷ row) = cell n row

-- `getError`: the message of a future that failed, and nothing otherwise.
unfoldable pub get_error : Answer → String
get_error (failed message) = message
get_error (rows r) = ""

-- The end of a query: an error text that is not empty is thrown.
unfoldable pub throw_error : String → Result (Unit {0})
throw_error err_str = if str_eq err_str "" then ok tt else throws err_str

-- The rows of `selectWebPage`: the content, and the error text.
unfoldable pub selected : String → Answer → String × String
selected content (failed message) =
    (content, "PageDbScylla::selectWebPage query exec error " <> message)
selected content (rows []) = (content, "PageDbScylla::selectWebPage iterate no rows")
selected content (rows (row ∷ r)) = elim (cell 0 row) [
  | none ↦ (content, "PageDbScylla::selectWebPage cass_value_get_string !CASS_OK")
  | some text ↦ (text, "")
]

-- The loop of `fullScanWebPages`: the pages that the callback gets, and the error text.
unfoldable pub scan_rows : List (List (Option String)) → List (String × String) × String
scan_rows [] = ([], "")
scan_rows (row ∷ r) = elim (cell 0 row) [
  | none ↦ ([], "PageDbScylla::getColumnValue cass_value_get_string !CASS_OK")
  | some url ↦ elim (cell 1 row) [
    | none ↦ ([], "PageDbScylla::getColumnValue cass_value_get_string !CASS_OK")
    | some content ↦ let rest = scan_rows r in ((url, content) ∷ rest.0, rest.1)
  ]
]

unfoldable pub scanned : Answer → List (String × String) × String
unfolding scan_rows
scanned (failed message) = ([], "PageDbScylla::fullScanWebPage query exec error " <> message)
scanned (rows r) = scan_rows r

-- A call that throws is answered `false`.
abbrev pub no_throw : Result (Unit {0}) → Bool
no_throw (ok u) = true
no_throw (throws what) = false

module _ (cass : Cass) where
  open cass use {Session, connect, execute}

  -- The constructor, with the hosts separated by commas.
  unfoldable pub open_session : String → Result Session
  open_session hosts = elim (connect hosts) [
    | none ↦ throws ("PageDbScylla::PageDbScylla connect " <> hosts)
    | some s ↦ ok s
  ]

  -- `upsertWebPage`
  unfoldable pub upsert_web_page : String → String → Session → Session × Result (Unit {0})
  unfolding get_error throw_error
  upsert_web_page url content s =
      let r = execute upsert_query (content ∷ url ∷ []) s in (r.0, throw_error (get_error r.1))

  -- `selectWebPage`, with the content that it leaves. It throws when there is no error.
  unfoldable pub select_web_page :
      String → String → Session → (Session × String) × Result (Unit {0})
  unfolding selected
  select_web_page url content s =
      let r = execute select_query (url ∷ []) s in
      let t = selected content r.1 in ((r.0, t.0), (if str_eq t.1 "" then throws t.1 else ok tt))

  -- `fullScanWebPages`
  unfoldable pub full_scan_web_pages :
      Session → (Session × List (String × String)) × Result (Unit {0})
  unfolding scanned throw_error
  full_scan_web_pages s =
      let r = execute scan_query [] s in let t = scanned r.1 in ((r.0, t.0), throw_error t.1)

  -- `executeQuery`, with the error text that it leaves.
  unfoldable pub execute_query : String → Session → Session × String
  unfolding get_error
  execute_query query s = let r = execute query [] s in (r.0, get_error r.1)

  -- `deleteAll`
  unfoldable pub delete_all : Session → Session × Result (Unit {0})
  unfolding execute_query
  delete_all s =
      let r = execute_query truncate_table_query s in
      (r.0, (if str_eq r.1 "" then ok tt else throws ("PageDbScylla::deleteAll truncate: " <> r.1)))

  -- `save`
  unfoldable pub save : String → String → Session → Session × Result (Unit {0})
  unfolding upsert_web_page c_str
  save url content s = upsert_web_page (c_str url) (c_str content) s

  -- `load`, with the content that it leaves and its answer.
  unfoldable pub load : String → String → Session → (Session × String) × Bool
  unfolding select_web_page c_str
  load url content s = let r = select_web_page (c_str url) content s in (r.0, no_throw r.1)

  -- `scanFull`: the pages that the callback is called with.
  unfoldable pub scan_full : Session → Session × List (String × String)
  unfolding full_scan_web_pages
  scan_full s = (full_scan_web_pages s).0
