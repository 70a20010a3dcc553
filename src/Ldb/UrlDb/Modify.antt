-- ===== src/Ldb/UrlDb/Modify.antt =====
-- src/ldb/UrlDbModify.cpp: what enqueueing and fetch results do to the table.
use contentv.Prelude.{
  ◌-◌, ◌≤◌, ◌<◌, ◌≡◌, subst, refl, ap, ◌∙◌, String, List, [], ◌∷◌, ◌++◌, none, some, false, arith,
  ltb, length, last?, last?-append, str_eq, eq_iff, Bool-cases, Option-cases, if◌then◌else◌, ◌⊎◌,
  inl, inr, All,
}
use contentv.Prelude.Dict.{find, insert, find-insert, find-insert_self, All-insert, find-All, IsIn}
use contentv.Prelude.Result.{ok}
use contentv.Core.Time.{Tp, hours}
use contentv.Core.Attempts.{
  AttemptStatus, enqueued, CrawlAttempt, CrawlAttempts, trim, add, get_last, set_last,
}
use contentv.Core.Attempts.History.{length-trim-le}
use contentv.Core.Records.{FetchResult}
use contentv.Ldb.UrlDb.{
  UrlDb, disallow_try_in_a_day, decide_status, is_need_crawl, is_need_crawl_robots,
  decide_robots_status, disallow_try_in_hour, attempts_of, set_enqueued_one, set_enqueued, ensure,
  set_result, set_status, on_fetched,
}

last?-trim : (l : CrawlAttempts) (a : CrawlAttempt) → last? (trim (l ++ a ∷ [])) ≡ some a
unfolding trim
last?-trim [] a = refl
last?-trim (x ∷ l) a = elim (Bool-cases (ltb 10 (length (x ∷ l ++ a ∷ [])))) [
  | inl e ↦ rw e (last?-trim l a)
  | inr e ↦ rw e (last?-append (x ∷ l) a)
]

-- The last attempt on the url is of that time and status.
abbrev pub HasLast : CrawlAttempt → String → UrlDb → Type 0
HasLast a url db =
    (attempts : CrawlAttempts) × (find url db ≡ some attempts) × (last? attempts ≡ some a)

module _ (round : Tp → Tp) where
  abbrev enqueued_at : Tp → CrawlAttempt
  enqueued_at now = record { tp = round now; status = enqueued }

  set_enqueued_one_self :
      (db : UrlDb) (url : String) (now : Tp)
      → HasLast (enqueued_at now) url (set_enqueued_one round db url now)
  unfolding set_enqueued_one add
  set_enqueued_one_self db url now = (
    trim (attempts_of url db ++ enqueued_at now ∷ []),
    find-insert_self url _ db,
    last?-trim (attempts_of url db) (enqueued_at now),
  )

  set_enqueued_one_other :
      (db : UrlDb) (u url : String) (now : Tp)
      → str_eq u url ≡ false
      → find url (set_enqueued_one round db u now) ≡ find url db
  unfolding set_enqueued_one
  set_enqueued_one_other db u url now e = rw (find-insert, e) refl

  set_enqueued_one-HasLast :
      (db : UrlDb) (u url : String) (now : Tp)
      → HasLast (enqueued_at now) url db
      → HasLast (enqueued_at now) url (set_enqueued_one round db u now)
  set_enqueued_one-HasLast db u url now h = elim (Bool-cases (str_eq u url)) [
    | inl e ↦
        subst (λ v. HasLast (enqueued_at now) v (set_enqueued_one round db u now))
          ((eq_iff u url).0 e) (set_enqueued_one_self db u now)
    | inr e ↦ (h.0, set_enqueued_one_other db u url now e ∙ h.1, h.2)
  ]

  set_enqueued-HasLast :
      (db : UrlDb) (urls : List String) (url : String) (now : Tp)
      → (HasLast (enqueued_at now) url db ⊎ IsIn url urls)
      → HasLast (enqueued_at now) url (set_enqueued round db urls now)
  unfolding set_enqueued
  set_enqueued-HasLast db [] url now (inl h) = h
  set_enqueued-HasLast db [] url now (inr h) = absurd h
  set_enqueued-HasLast db (u ∷ us) url now (inl h) =
      set_enqueued-HasLast (set_enqueued_one round db u now) us url now
        (inl (set_enqueued_one-HasLast db u url now h))
  set_enqueued-HasLast db (u ∷ us) url now (inr (inl e)) =
      set_enqueued-HasLast (set_enqueued_one round db u now) us url now (
        inl (
          subst (λ v. HasLast (enqueued_at now) v (set_enqueued_one round db u now)) e
            (set_enqueued_one_self db u now)))
  set_enqueued-HasLast db (u ∷ us) url now (inr (inr h)) =
      set_enqueued-HasLast (set_enqueued_one round db u now) us url now (inr h)

  -- A url that `setEnqueued` was called with at `now` is answered "not again within a day" at every
  -- later time before 24 whole hours have gone by since the rounded `now`.
  pub set_enqueued-blocks :
      (db : UrlDb) (urls : List String) (url : String) (now later : Tp)
      → IsIn url urls
      → hours (later - round now) < 24
      → is_need_crawl (set_enqueued round db urls now) url later ≡ disallow_try_in_a_day
  unfolding is_need_crawl decide_status
  set_enqueued-blocks db urls url now later h age =
      let last = set_enqueued-HasLast db urls url now (inr h) in
      rw (last.1, last.2, is_need_crawl, decide_status) (ground arith)

  pub set_enqueued-blocks_robots :
      (db : UrlDb) (urls : List String) (url : String) (now later : Tp)
      → IsIn url urls
      → hours (later - round now) < 1
      → is_need_crawl_robots (set_enqueued round db urls now) url later ≡ disallow_try_in_hour
  unfolding is_need_crawl_robots decide_robots_status
  set_enqueued-blocks_robots db urls url now later h age =
      let last = set_enqueued-HasLast db urls url now (inr h) in
      rw (last.1, last.2, is_need_crawl_robots, decide_robots_status) (ground arith)

-- No url of the table is without attempts or has more than ten.
abbrev pub IsValid : UrlDb → Type 0
IsValid = All (λ (e : String × CrawlAttempts). (1 ≤ length e.1) × (length e.1 ≤ 10))

last?-some : (l : CrawlAttempts) → 1 ≤ length l → (a : CrawlAttempt) × (last? l ≡ some a)
last?-some [] h = absurd (omega arith)
last?-some (a ∷ []) h = (a, refl)
last?-some (a ∷ b ∷ l) h = last?-some (b ∷ l) (omega arith)

length-set_last : (s : AttemptStatus) (l : CrawlAttempts) → length (set_last s l) ≡ length l
unfolding set_last
length-set_last s [] = refl
length-set_last s (a ∷ []) = refl
length-set_last s (a ∷ b ∷ l) = omega (arith, length-set_last s (b ∷ l))

last?-set_last :
    (s : AttemptStatus) (l : CrawlAttempts) (a : CrawlAttempt)
    → last? l ≡ some a
    → last? (set_last s l) ≡ some (record a { status = s })
unfolding set_last
last?-set_last s [] a e = cc
last?-set_last s (b ∷ []) a e =
    ap (λ o. last? (set_last s (elim o [ none ↦ [] | some x ↦ x ∷ [] ]))) e
last?-set_last s (b ∷ c ∷ []) a e = last?-set_last s (c ∷ []) a e
last?-set_last s (b ∷ c ∷ d ∷ l) a e = last?-set_last s (c ∷ d ∷ l) a e

length-trim-pos : (l : CrawlAttempts) (a : CrawlAttempt) → 1 ≤ length (trim (l ++ a ∷ []))
length-trim-pos l a = pos _ (last?-trim l a)
  where
    pos : (m : CrawlAttempts) → last? m ≡ some a → 1 ≤ length m
    pos [] e = cc
    pos (x ∷ m) e = omega arith

-- The url is known, with attempts that are not empty and at most ten.
abbrev Known : String → UrlDb → Type 0
Known url db = (l : CrawlAttempts) × (find url db ≡ some l) × (1 ≤ length l) × (length l ≤ 10)

module _ (round : Tp → Tp) where
  set_enqueued_one-IsValid :
      (db : UrlDb) (url : String) (now : Tp)
      → IsValid db
      → IsValid (set_enqueued_one round db url now) × Known url (set_enqueued_one round db url now)
  unfolding set_enqueued_one add
  set_enqueued_one-IsValid db url now v =
      let l = trim (attempts_of url db ++ record { tp = round now; status = enqueued } ∷ []) in
      let pos =
        length-trim-pos (attempts_of url db) (record { tp = round now; status = enqueued }) in
      let le =
        length-trim-le (attempts_of url db ++ record { tp = round now; status = enqueued } ∷ []) in
      (All-insert _ url l db (pos, le) v, (l, find-insert_self url l db, pos, le))

  ensure-IsValid :
      (db : UrlDb) (url : String) (now : Tp)
      → IsValid db
      → IsValid (ensure round db url now) × Known url (ensure round db url now)
  unfolding ensure
  ensure-IsValid db url now v = elim (Option-cases (find url db)) [
    | inl e ↦ rw (e, ensure) (set_enqueued_one-IsValid db url now v)
    | inr (l, e) ↦
        rw (e, ensure) (v, (l, e, (find-All _ url l db v e).0, (find-All _ url l db v e).1))
  ]

  ensure_other :
      (db : UrlDb) (url j : String) (now : Tp)
      → str_eq url j ≡ false
      → find j (ensure round db url now) ≡ find j db
  unfolding ensure
  ensure_other db url j now h = elim (Option-cases (find url db)) [
    | inl e ↦ rw (e, ensure) (set_enqueued_one_other round db url j now h)
    | inr (l, e) ↦ rw (e, ensure) refl
  ]

  -- What one status of a url leaves: a valid table, in which that url's last attempt has it and the
  -- other urls have what they had.
  abbrev pub Recorded : UrlDb → String → AttemptStatus → UrlDb → Type 0
  Recorded db url status db' =
      IsValid db'
      × ((a : CrawlAttempt) × (a.status ≡ status) × HasLast a url db')
      × ((j : String) → find j db' ≡ (if str_eq url j then find url db' else find j db))

  set_result_known :
      (db db' : UrlDb) (url : String) (status : AttemptStatus) (now : Tp)
      → ensure round db url now ≡ db'
      → (l : CrawlAttempts) → find url db' ≡ some l
      → (a : CrawlAttempt) → last? l ≡ some a
      → set_result round db url status now ≡ ok (insert url (set_last status l) db')
  unfolding set_result attempts_of get_last
  set_result_known db db' url status now e l f a g =
      rw (e, f, g, set_result, attempts_of, get_last) refl

  -- `setResult` on a valid table never throws. It records the status as that of the url's last
  -- attempt, leaves the other urls as they are and keeps the table valid.
  pub set_result-Recorded :
      (db : UrlDb) (url : String) (status : AttemptStatus) (now : Tp)
      → IsValid db
      → (db' : UrlDb) × (set_result round db url status now ≡ ok db') × Recorded db url status db'
  set_result-Recorded db url status now v =
      let e = ensure round db url now in
      let w = ensure-IsValid db url now v in
      let l = w.1.0 in
      let a = last?-some l w.1.2 in
      (
        insert url (set_last status l) e,
        set_result_known db e url status now refl l w.1.1 a.0 a.1,
        (
          All-insert _ url (set_last status l) e
              (
                omega (arith, length-set_last status l, w.1.2),
                omega (arith, length-set_last status l, w.1.3),
              )
              w.0,
          (
            record (a.0) { status = status },
            refl,
            (set_last status l, find-insert_self url _ e, last?-set_last status l a.0 a.1),
          ),
          λ j. elim (Bool-cases (str_eq url j)) [
            | inl y ↦ rw (find-insert url j, y, find-insert_self) refl
            | inr y ↦ rw (find-insert url j, y) (ensure_other db url j now y)
          ],
        ),
      )

  -- `onFetched` on a valid table never throws and keeps the table valid.
  pub on_fetched-IsValid :
      (db : UrlDb) (rs : List FetchResult) (now : Tp)
      → IsValid db
      → (db' : UrlDb) × (on_fetched round db rs now ≡ ok db') × IsValid db'
  unfolding on_fetched set_status
  on_fetched-IsValid db [] now v = (db, refl, v)
  on_fetched-IsValid db (r ∷ rs) now v =
      let s = set_result-Recorded db r.gfq.url r.status now v in
      let t = on_fetched-IsValid s.0 rs now (s.2.0) in (t.0, rw (s.1) (t.1), t.2)

  -- `setEnqueued` keeps the table valid.
  pub set_enqueued-IsValid :
      (db : UrlDb) (urls : List String) (now : Tp)
      → IsValid db
      → IsValid (set_enqueued round db urls now)
  unfolding set_enqueued
  set_enqueued-IsValid db [] now v = v
  set_enqueued-IsValid db (u ∷ us) now v =
      set_enqueued-IsValid (set_enqueued_one round db u now) us now
        (set_enqueued_one-IsValid db u now v).0
