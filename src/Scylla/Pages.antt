-- ===== src/Scylla/Pages.antt =====
-- src/scylla/PageDbScylla.cpp: what the page store answers, for every answer of the database.
use contentv.Prelude.{
  ◌≡◌, ◌⊎◌, refl, sym, ap, ◌∙◌, subst, String, List, [], ◌∷◌, Option, none, some, true, false,
  str_eq, eq_iff, ◌≤◌, Bool-cases, if◌then◌else◌, inl, inr, arith,
}
use contentv.Prelude.Text.{◌<>◌, size, size-append}
use contentv.Prelude.Dict.{Dict, find}
use contentv.Prelude.Result.{ok, throws}
use contentv.Scylla.{
  Answer, failed, rows, upsert_query, select_query, scan_query, content_rows, page_rows, Cass,
  c_str, no_throw, get_error, throw_error, selected, scan_rows, scanned, upsert_web_page,
  select_web_page, full_scan_web_pages, save, load, scan_full,
}

scan_rows-page_rows : (m : Dict String) → scan_rows (page_rows m) ≡ (m, "")
unfolding scan_rows
scan_rows-page_rows [] = refl
scan_rows-page_rows ((url, content) ∷ m) =
    ap (λ (r : List (String × String) × String). ((url, content) ∷ r.0, r.1))
      (scan_rows-page_rows m)

-- A text behind another one that is not empty is not empty.
append_not_empty : (s t : String) → 1 ≤ size s → str_eq (s <> t) "" ≡ false
append_not_empty s t h = elim (Bool-cases (str_eq (s <> t) "")) [
  | inl e ↦ absurd (omega (arith, h, size-append s t, ap size ((eq_iff (s <> t) "").0 e)))
  | inr e ↦ e
]

-- `load` answered `false` and left the page's content, or it answered `true` and left the content as it
-- was, because there is no such page or the query failed.
abbrev Loaded : String → Option String → Answer → Type 0
Loaded content page a =
    let t = selected content a in
    let answer = no_throw (if str_eq t.1 "" then throws t.1 else ok tt) in
    ((answer ≡ false) × (page ≡ some t.0))
    ⊎ ((answer ≡ true)
        × (t.0 ≡ content)
        × ((page ≡ none) ⊎ ((message : String) × (a ≡ failed message))))

loaded :
    (content : String) (page : Option String) (a : Answer)
    → ((r : List (List (Option String))) → a ≡ rows r → r ≡ content_rows page)
    → Loaded content page a
unfolding selected
loaded content page (failed message) h = inr (
  rw (append_not_empty "PageDbScylla::selectWebPage query exec error " message (omega arith)) refl,
  refl,
  inr (message, refl),
)
loaded content none (rows r) h =
    subst (λ l. Loaded content none (rows l)) (sym (h r refl)) (inr (refl, refl, inl refl))
loaded content (some text) (rows r) h =
    subst (λ l. Loaded content (some text) (rows l)) (sym (h r refl)) (inl (refl, refl))

module _ (cass : Cass) where
  open cass use {Session, execute, web_pages, execute-upsert, execute-select, execute-scan}

  -- Whatever the database answers, `load` answers `false` when it has read the page, and then leaves
  -- its content; it answers `true` when there is no such page or the query failed, and then leaves the
  -- content as it was.
  pub load_lem :
      (url content : String) (s : Session)
      → let r = load cass url content s in
        ((r.1 ≡ false) × (find (c_str url) (web_pages s) ≡ some r.0.1))
        ⊎ ((r.1 ≡ true)
            × (r.0.1 ≡ content)
            × ((find (c_str url) (web_pages s) ≡ none)
                ⊎ ((message : String) × ((execute select_query (c_str url ∷ []) s).1
                      ≡ failed message))))
  unfolding load select_web_page
  load_lem url content s =
      loaded content (find (c_str url) (web_pages s)) (execute select_query (c_str url ∷ []) s).1
        (execute-select (c_str url) s)

  scan_answered :
      (s : Session) (a : Answer)
      → ((r : List (List (Option String))) → a ≡ rows r → r ≡ page_rows (web_pages s))
      → (r : List (List (Option String))) → a ≡ rows r
      → (scanned a).0 ≡ web_pages s
  unfolding scanned
  scan_answered s (failed message) h r e = absurd (clash e)
    where
      clash : {m : String} {r : List (List (Option String))} → failed m ≡ rows r → ⊥
      clash e = cc
  scan_answered s (rows l) h r e =
      ap (λ x. (scan_rows x).0) (h l refl) ∙ ap (λ x. x.0) (scan_rows-page_rows (web_pages s))

  -- After a page is saved, a scan of the whole table hands over exactly the page with the url and the
  -- content that were saved, each cut at its first zero byte, and the other pages as they were, when
  -- the database answers both.
  pub scan_full-save :
      (url content j : String) (s : Session) (r r' : List (List (Option String)))
      → (execute upsert_query (c_str content ∷ c_str url ∷ []) s).1 ≡ rows r
      → (execute scan_query [] (save cass url content s).0).1 ≡ rows r'
      → ((save cass url content s).1 ≡ ok tt)
        × (find j (scan_full cass (save cass url content s).0).1
            ≡ (if str_eq (c_str url) j then some (c_str content) else find j (web_pages s)))
  unfolding save upsert_web_page scan_full full_scan_web_pages get_error throw_error
  scan_full-save url content j s r r' e e' =
      let s' = (save cass url content s).0 in
      (
        ap (λ a. throw_error (get_error a)) e,
        ap (find j) (scan_answered s' (execute scan_query [] s').1 (execute-scan s') r' e')
            ∙ execute-upsert (c_str url) (c_str content) s r e j,
      )
