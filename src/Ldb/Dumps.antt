-- ===== src/Ldb/Dumps.antt =====
-- A table of src/ldb in LevelDB: each entry is written as the dump of its value, and read back by the
-- constructor from a dump.
use contentv.Prelude.{
  ◌≡◌, refl, sym, ap, ◌∙◌, subst, String, [], ◌∷◌, Option, none, some, str_eq, eq_iff, Bool-cases,
  Option-cases, inl, inr, Bool, true, false, All, if◌then◌else◌,
}
use contentv.Prelude.Dict.{Dict, find, insert, IsUnique, find-insert, find-All, All-find}
use contentv.Prelude.Result.{Result, ok, ◌>>=◌}
use contentv.Ldb.Store.{LevelDb}

module _ {V : Type 0} (dump : V → String) (load : String → Result V) (level : LevelDb) where
  open level use {Db, put, get, scan, get-put, find-scan, scan-IsUnique}

  -- The entries of the table, put on the disk up to the first write that fails, and whether none has.
  unfoldable pub put_all : Dict V → Db → Bool × Db
  put_all [] disk = (true, disk)
  put_all ((k, l) ∷ db) disk =
      let w = put k (dump l) disk in let rest = put_all db w.1 in if w.0 then rest else w

  -- The entries of the table, put on the disk one after the other, whether or not a write fails.
  unfoldable pub put_each : Dict V → Db → Db
  put_each [] disk = disk
  put_each ((k, l) ∷ db) disk = put_each db (put k (dump l) disk).1

  -- When no write of the entries fails, the first has not and those behind it do not.
  put_all-first :
      (k : String) (l : V) (db : Dict V) (disk : Db)
      → (put_all ((k, l) ∷ db) disk).0 ≡ true
      → ((put k (dump l) disk).0 ≡ true)
        × ((put_all db (put k (dump l) disk).1).0 ≡ true)
        × (put_all ((k, l) ∷ db) disk ≡ put_all db (put k (dump l) disk).1)
  unfolding put_all
  put_all-first k l db disk h = elim (Bool-cases (put k (dump l) disk).0) [
    | inl e ↦
        let same : put_all ((k, l) ∷ db) disk ≡ put_all db (put k (dump l) disk).1 =
          rw (e, put_all) refl in
        (e, subst (λ (r : Bool × Db). r.0 ≡ true) same h, same)
    | inr e ↦
        let same : put_all ((k, l) ∷ db) disk ≡ put k (dump l) disk = rw (e, put_all) refl in
        let f : false ≡ true = sym e ∙ subst (λ (r : Bool × Db). r.0 ≡ true) same h in cc
  ]

  pub put_each-put_all :
      (db : Dict V) (disk : Db)
      → (put_all db disk).0 ≡ true
      → put_each db disk ≡ (put_all db disk).1
  unfolding put_all put_each
  put_each-put_all [] disk h = refl
  put_each-put_all ((k, l) ∷ db) disk h =
      let f = put_all-first k l db disk h in
      put_each-put_all db (put k (dump l) disk).1 f.1 ∙ sym (ap (λ (r : Bool × Db). r.1) f.2)

  -- The entries of the disk, each of them loaded into the table.
  unfoldable pub load_all : Dict V → Dict String → Result (Dict V)
  load_all db [] = ok db
  load_all db ((k, text) ∷ es) = do l ← load text; load_all (insert k l db) es

  -- What a write of the table leaves on the disk for a key.
  abbrev dumped : Option V → Option String → Option String
  dumped none old = old
  dumped (some l) old = some (dump l)

  get-put_all :
      (db : Dict V) (disk : Db) (url : String)
      → IsUnique db
      → (put_all db disk).0 ≡ true
      → get url (put_all db disk).1 ≡ dumped (find url db) (get url disk)
  unfolding put_all find
  get-put_all [] disk url u w = refl
  get-put_all ((k, l) ∷ db) disk url u w =
      let d = (put k (dump l) disk).1 in
      let f = put_all-first k l db disk w in
      ap (λ (r : Bool × Db). get url r.1) f.2 ∙ (elim (Bool-cases (str_eq k url)) [
        | inl e ↦
            let n : find url db ≡ none = subst (λ v. find v db ≡ none) ((eq_iff k url).0 e) u.0 in
            let g : get url d ≡ some (dump l) =
              get-put k url _ disk f.0 ∙ ap (λ b. if b then some (dump l) else get url disk) e in
            get-put_all db d url u.1 f.1 ∙ rw (n, e, g) refl
        | inr e ↦
            let g : get url d ≡ get url disk =
              get-put k url _ disk f.0 ∙ ap (λ b. if b then some (dump l) else get url disk) e in
            get-put_all db d url u.1 f.1 ∙ rw (e, g) refl
      ])

  -- Every text of the entries is a dump that the constructor takes.
  abbrev pub Loads : String × String → Type 0
  Loads e = (l : V) × (load e.1 ≡ ok l)

  -- What the entries leave in a table that held `old` for a url.
  abbrev pub Left : Option String → Option V → Option V → Type 0
  Left none old new = new ≡ old
  Left (some text) old new = (l : V) × (load text ≡ ok l) × (new ≡ some l)

  load_all_lem :
      (db : Dict V) (es : Dict String)
      → IsUnique es
      → All Loads es
      → (db' : Dict V) × (load_all db es ≡ ok db')
        × ((url : String) → Left (find url es) (find url db) (find url db'))
  unfolding load_all find
  load_all_lem db [] u a = (db, refl, λ url. refl)
  load_all_lem db ((k, text) ∷ es) u a =
      let rest = load_all_lem (insert k a.0.0 db) es u.1 a.1 in
      (
        rest.0,
        rw (a.0.1) (rest.1),
        λ url. elim (Bool-cases (str_eq k url)) [
          | inl e ↦
              let n : find url es ≡ none = subst (λ v. find v es ≡ none) ((eq_iff k url).0 e) u.0 in
              let g : find url (insert k a.0.0 db) ≡ some a.0.0 =
                find-insert k url _ db ∙ ap (λ b. if b then some a.0.0 else find url db) e in
              let h : find url rest.0 ≡ find url (insert k a.0.0 db) =
                subst (λ o. Left o (find url (insert k a.0.0 db)) (find url rest.0)) n
                  (rest.2 url) in
              rw e (a.0.0, a.0.1, h ∙ g)
          | inr e ↦
              let g : find url (insert k a.0.0 db) ≡ find url db =
                find-insert k url _ db ∙ ap (λ b. if b then some a.0.0 else find url db) e in
              rw e (subst (λ o. Left (find url es) o (find url rest.0)) g (rest.2 url))
        ],
      )

  abbrev pub Reloads : Dict V → Type 0
  Reloads = All (λ (e : String × V). load (dump e.1) ≡ ok e.1)

  put_all-Loads :
      (db : Dict V) (disk : Db)
      → IsUnique db
      → Reloads db
      → All Loads (scan disk)
      → (put_all db disk).0 ≡ true
      → All Loads (scan (put_all db disk).1)
  put_all-Loads db disk u r a w =
      All-find Loads (scan (put_all db disk).1) (scan-IsUnique (put_all db disk).1) (λ k v e.
        let g : dumped (find k db) (get k disk) ≡ some v =
          sym (get-put_all db disk k u w) ∙ (sym (find-scan k (put_all db disk).1) ∙ e) in
        elim (Option-cases (find k db)) [
          | inl n ↦
              find-All Loads k v (scan disk) a
                (find-scan k disk ∙ subst (λ o. dumped o (get k disk) ≡ some v) n g)
          | inr (l, f) ↦
              let h : dump l ≡ v = some_inj (subst (λ o. dumped o (get k disk) ≡ some v) f g) in
              (l, ap (load) (sym h) ∙ find-All _ k l db r f)
        ])
    where
      some_inj : {x y : String} → some x ≡ some y → x ≡ y
      some_inj e = cc

  -- A table that is written over a disk that can be loaded can be loaded, and a key of the table has
  -- then the value that it had, when the dump of each value loads, no key stands twice and no write
  -- fails.
  pub load_all-put_all :
      (db : Dict V) (disk : Db) (url : String) (l : V)
      → IsUnique db
      → Reloads db
      → All Loads (scan disk)
      → find url db ≡ some l
      → (put_all db disk).0 ≡ true
      → (db' : Dict V) × (load_all [] (scan (put_all db disk).1) ≡ ok db') × (find url db' ≡ some l)
  load_all-put_all db disk url l u r a e w =
      let disk' = (put_all db disk).1 in
      let t = load_all_lem [] (scan disk') (scan-IsUnique disk') (put_all-Loads db disk u r a w) in
      (
        t.0,
        t.1,
        let f : find url (scan disk') ≡ some (dump l) =
              find-scan url disk'
              ∙ (get-put_all db disk url u w ∙ ap (λ o. dumped o (get url disk)) e) in
            same (find url t.0) (subst (λ o. Left o (find url []) (find url t.0)) f (t.2 url)),
      )
    where
      reloaded : load (dump l) ≡ ok l
      reloaded = find-All (λ (e : String × V). load (dump e.1) ≡ ok e.1) url l db r e

      same : (o : Option V) → Left (some (dump l)) (find "" []) o → o ≡ some l
      same o h = h.2 ∙ ap some (ok_inj (sym h.1 ∙ reloaded))
        where
          ok_inj : {x y : V} → ok x ≡ ok y → x ≡ y
          ok_inj e = cc
