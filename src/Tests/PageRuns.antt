-- ===== src/Tests/PageRuns.antt =====
-- A database for the Scylla page store, and the theorems about it at concrete inputs.
use contentv.Prelude.{
  ◌≡◌, ◌⊎◌, refl, sym, String, List, [], ◌∷◌, Option, none, some, true, false, str_eq, Bool-cases,
  if◌then◌else◌, inl, inr,
}
use contentv.Prelude.Dict.{Dict, find, insert, IsUnique, find-insert, insert-IsUnique}
use contentv.Prelude.Result.{ok}
use contentv.Scylla.{
  Answer, failed, rows, upsert_query, select_query, scan_query, content_rows, page_rows, Cass,
  c_str, save, load, scan_full,
}
use contentv.Scylla.Pages.{load_lem, scan_full-save}

abbrev Pages : Type 0
Pages = (m : Dict String) × IsUnique m

abbrev upsert : List String → Pages → Pages × Answer
upsert [] s = (s, failed "arguments")
upsert (content ∷ []) s = (s, failed "arguments")
upsert (content ∷ url ∷ l) s =
    ((insert url content s.0, insert-IsUnique url content s.0 s.1), rows [])

abbrev select : List String → Pages → Pages × Answer
select [] s = (s, failed "arguments")
select (url ∷ l) s =
    (s, (if str_eq url "slow" then failed "timeout" else rows (content_rows (find url s.0))))

abbrev execute : String → List String → Pages → Pages × Answer
execute query bound s =
    if str_eq query upsert_query
    then upsert bound s
    else if str_eq query select_query
    then select bound s
    else if str_eq query scan_query
    then (s, rows (page_rows s.0))
    else (([], tt), rows [])

rows_inj : {r l : List (List (Option String))} → rows r ≡ rows l → r ≡ l
rows_inj e = cc

select_rows :
    (url : String) (s : Pages) (r : List (List (Option String)))
    → (select (url ∷ []) s).1 ≡ rows r
    → r ≡ content_rows (find url s.0)
select_rows url s r e = elim (Bool-cases (str_eq url "slow")) [
  | inl t ↦ absurd (clash (rw t at e))
  | inr f ↦ sym (rows_inj (rw f at e))
]
  where
    clash : {m : String} {r : List (List (Option String))} → failed m ≡ rows r → ⊥
    clash e = cc

-- The url "slow" cannot be read.
abbrev cass : Cass
cass = record {
  Session = Pages;
  connect = λ hosts. some ([], tt);
  execute = execute;
  web_pages = λ s. s.0;
  web_pages-IsUnique = λ s. s.1;
  execute-upsert = λ url content s r e j. find-insert url j content s.0;
  execute-select = select_rows;
  execute-scan = λ s r e. sym (rows_inj e);
}

abbrev one_page : Pages
one_page = (insert "https://h/1" "text" [], insert-IsUnique "https://h/1" "text" [] tt)

load_lem_example :
    let r = load cass "https://h/1" "" one_page in
    ((r.1 ≡ false) × (find "https://h/1" one_page.0 ≡ some r.0.1))
    ⊎ ((r.1 ≡ true)
        × (r.0.1 ≡ "")
        × ((find "https://h/1" one_page.0 ≡ none)
            ⊎ ((message : String) × ((select ("https://h/1" ∷ []) one_page).1 ≡ failed message))))
unfolding c_str
load_lem_example = load_lem cass "https://h/1" "" one_page

scan_full-save_example :
    ((save cass "https://h/1" "new" one_page).1 ≡ ok tt)
    × (find "https://h/1" (scan_full cass (save cass "https://h/1" "new" one_page).0).1
        ≡ some "new")
unfolding c_str
scan_full-save_example =
    scan_full-save cass "https://h/1" "new" "https://h/1" one_page [] _ refl refl
