-- ===== src/Worker/QueryLoop/Stored.antt =====
-- src/worker/QueryLoop.cpp: what the table of the hits holds after a round.
use contentv.Prelude.{
  ◌+◌, ◌≡◌, ◌⊎◌, inl, inr, refl, sym, ap, ◌∙◌, subst, String, List, [], ◌∷◌, Option, none, some,
  str_eq, eq_iff, map, if◌then◌else◌, Bool-cases, Option-cases, arith,
}
use contentv.Prelude.Dict.{Dict, find, IsUnique, IsIn}
use contentv.Prelude.Result.{Result, ok}
use contentv.Core.QueryGroup.{hits, Group, GroupCodec, dump, load}
use contentv.Core.Matcher.{Trie, query}
use contentv.Core.Matcher.Hits.{HasQuery}
use contentv.Core.Matcher.Pages.{HasPage, query_iff, query-entries, of_entry}
use contentv.Ldb.Lvl.{LvlDb}
use contentv.Ldb.PageDb.{scan_full}
use contentv.Ldb.QueryDb.{QueryDb, get_all_qg, save_qg_hits_or_throw, load_qg_hits}
use contentv.Worker.QueryLoop.{LoopState, save_all, count_cycle, loop_impl}

-- The first of the groups with an id.
abbrev pub find_group : String → List Group → Option Group
find_group gid [] = none
find_group gid (g ∷ gs) = if str_eq g.gid gid then some g else find_group gid gs

abbrev HasUniqueIds : List Group → Type 0
HasUniqueIds [] = Unit
HasUniqueIds (g ∷ gs) = (find_group g.gid gs ≡ none) × HasUniqueIds gs

find_group-none :
    (gid : String) (m : Dict (List String))
    → find gid m ≡ none
    → find_group gid (map of_entry m) ≡ none
unfolding find
find_group-none gid [] e = refl
find_group-none gid ((k, l) ∷ m) e = ground (arith, find_group-none gid m)

map-HasUniqueIds : (m : Dict (List String)) → IsUnique m → HasUniqueIds (map of_entry m)
map-HasUniqueIds [] u = tt
map-HasUniqueIds ((k, l) ∷ m) u = (find_group-none k m u.0, map-HasUniqueIds m u.1)

find_group-HasQuery :
    (gid url : String) (gs : List Group)
    → HasUniqueIds gs
    → HasQuery gid url gs
    → (g : Group) × (find_group gid gs ≡ some g) × IsIn url g.items
find_group-HasQuery gid url [] u h = absurd h
find_group-HasQuery gid url (g ∷ gs) u (inl h) = (g, rw ((eq_iff g.gid gid).1 h.0) refl, h.1)
find_group-HasQuery gid url (g ∷ gs) u (inr h) = elim (Bool-cases (str_eq g.gid gid)) [
  | inl e ↦
      let rest = find_group-HasQuery gid url gs u.1 h in
      let gone : find_group gid gs ≡ none =
        subst (λ j. find_group j gs ≡ none) ((eq_iff g.gid gid).0 e) u.0 in
      absurd (clash gone (rest.1))
  | inr e ↦ rw e (find_group-HasQuery gid url gs u.1 h)
]
  where
    clash : {o : Option Group} {g : Group} → o ≡ none → o ≡ some g → ⊥
    clash e f = cc

HasQuery-find :
    (gid url : String) (gs : List Group) (g : Group)
    → find_group gid gs ≡ some g
    → IsIn url g.items
    → HasQuery gid url gs
HasQuery-find gid url [] g e h = cc
HasQuery-find gid url (g' ∷ gs) g e h = elim (Bool-cases (str_eq g'.gid gid)) [
  | inl t ↦ inl (
    (eq_iff g'.gid gid).0 t,
    subst (λ (o : Group). IsIn url o.items) (sym (some_inj (rw t at e))) h,
  )
  | inr t ↦ inr (HasQuery-find gid url gs g (rw t at e) h)
]
  where
    some_inj : {x y : Group} → some x ≡ some y → x ≡ y
    some_inj e = cc

module _ (lvl : LvlDb) (codec : GroupCodec) where
  abbrev D : Type 0
  D = QueryDb lvl.Db

  -- The hits of a group after a round: those that the round found, or else those from before.
  abbrev newest : Option Group → Result (Option Group) → Result (Option Group)
  newest none old = old
  newest (some g) old = ok (some g)

  load_qg_hits-saved :
      (d : D) (db : lvl.Db) (g : Group) (j : String)
      → lvl.save g.gid (dump codec hits g) d.qg_hits_db ≡ ok db
      → load_qg_hits lvl codec j (record d { qg_hits_db = db })
        ≡ (if str_eq g.gid j then ok (some g) else load_qg_hits lvl codec j d)
  unfolding load_qg_hits dump load
  load_qg_hits-saved d db g j s = elim (Bool-cases (str_eq g.gid j)) [
    | inl e ↦
        rw (lvl.load-save g.gid j (dump codec hits g) d.qg_hits_db db s, e)
          (rw (codec.parse-serialize hits g.gid g.items, load) refl)
    | inr e ↦ rw (lvl.load-save g.gid j (dump codec hits g) d.qg_hits_db db s, e) refl
  ]

  -- The table of the hits can be written.
  abbrev pub IsWritable : Type 0
  IsWritable = (k v : String) (d : lvl.Db) → (d' : lvl.Db) × (lvl.save k v d ≡ ok d')

  save_all-newest :
      (trie : Trie) (gs : List Group) (d : D)
      → IsWritable
      → HasUniqueIds gs
      → (d' : D) × (save_all lvl codec trie gs d ≡ (d', ok tt))
        × ((j : String)
            → load_qg_hits lvl codec j d' ≡ newest (find_group j gs) (load_qg_hits lvl codec j d))
  unfolding save_all save_qg_hits_or_throw
  save_all-newest trie [] d w u = (d, refl, λ j. refl)
  save_all-newest trie (g ∷ gs) d w u =
      let s = w g.gid (dump codec hits g) d.qg_hits_db in
      let d1 : D = record d { qg_hits_db = s.0 } in
      let rest = save_all-newest trie gs d1 w u.1 in
      (
        rest.0,
        rw (s.1, save_all) (rest.1),
        λ j. elim (Bool-cases (str_eq g.gid j)) [
          | inl e ↦
              let gone : find_group j gs ≡ none =
                subst (λ v. find_group v gs ≡ none) ((eq_iff g.gid j).0 e) u.0 in
              rest.2 j ∙ rw (gone, e) (load_qg_hits-saved d s.0 g j s.1 ∙ rw e refl)
          | inr e ↦
              rest.2 j
              ∙ rw e (ap (newest (find_group j gs)) (load_qg_hits-saved d s.0 g j s.1 ∙ rw e refl))
        ],
      )

module _ (lvl : LvlDb) (codec : GroupCodec) (trie : Trie) where
  -- A page on whose content a query of the group occurs.
  abbrev pub IsHit : List Group → String → String → List (String × String) → Type 0
  IsHit qgs gid url pages =
      HasPage (λ content. (q : String) × HasQuery gid q qgs × trie.Occurs q content) url pages

  query-HasUniqueIds :
      (qgs : List Group) (pages : List (String × String)) → HasUniqueIds (query trie qgs pages)
  query-HasUniqueIds qgs pages =
      let m = query-entries trie qgs pages in
      subst HasUniqueIds (sym m.2) (map-HasUniqueIds m.0 m.1)

  -- The state after a round that can write.
  round :
      (s : LoopState lvl.Db) (qgs : List Group)
      → IsWritable lvl codec
      → get_all_qg lvl codec s.query_db ≡ ok qgs
      → (d' : QueryDb lvl.Db) × (loop_impl lvl codec trie s
          ≡ (record s { query_db = d'; cycles_count = s.cycles_count + 1 }, ok tt))
        × ((j : String)
            → load_qg_hits lvl codec j d'
              ≡ newest lvl codec
                  (find_group j (query trie qgs (scan_full lvl s.page_db)))
                  (load_qg_hits lvl codec j s.query_db))
  unfolding loop_impl
  round s qgs w e =
      let gs = query trie qgs (scan_full lvl s.page_db) in
      let saved =
        save_all-newest lvl codec trie gs s.query_db w
          (query-HasUniqueIds qgs (scan_full lvl s.page_db)) in
      (saved.0, rw (e, loop_impl) (ap (count_cycle lvl codec trie s) (saved.1)), saved.2)

  -- When the tables can be read and written, a round of the query loop ends and counts a cycle, and a
  -- page on whose content a query of a group occurs is then among the hits that are stored for that
  -- group.
  pub loop_impl-IsHit :
      (s : LoopState lvl.Db) (qgs : List Group) (gid url : String)
      → IsWritable lvl codec
      → get_all_qg lvl codec s.query_db ≡ ok qgs
      → IsHit qgs gid url (scan_full lvl s.page_db)
      → (s' : LoopState lvl.Db) × (loop_impl lvl codec trie s ≡ (s', ok tt))
        × (s'.cycles_count ≡ s.cycles_count + 1)
        × ((g : Group) × (load_qg_hits lvl codec gid s'.query_db ≡ ok (some g)) × IsIn url g.items)
  loop_impl-IsHit s qgs gid url w e h =
      let pages = scan_full lvl s.page_db in
      let r = round s qgs w e in
      let f =
        find_group-HasQuery gid url (query trie qgs pages) (query-HasUniqueIds qgs pages)
          ((query_iff trie qgs pages gid url).1 h) in
      (
        record s { query_db = r.0; cycles_count = s.cycles_count + 1 },
        r.1,
        refl,
        (f.0, r.2 gid ∙ rw (f.1) refl, f.2),
      )

  -- After a round of the query loop on tables that can be read and written, a url that is stored as a
  -- hit of a group is that of a page on whose content a query of the group occurs, or the round left
  -- the hits of the group as they were.
  pub loop_impl-stored :
      (s s' : LoopState lvl.Db) (qgs : List Group) (gid url : String) (g : Group)
      → IsWritable lvl codec
      → get_all_qg lvl codec s.query_db ≡ ok qgs
      → loop_impl lvl codec trie s ≡ (s', ok tt)
      → load_qg_hits lvl codec gid s'.query_db ≡ ok (some g)
      → IsIn url g.items
      → IsHit qgs gid url (scan_full lvl s.page_db)
        ⊎ (load_qg_hits lvl codec gid s.query_db ≡ ok (some g))
  loop_impl-stored s s' qgs gid url g w e l stored h =
      let pages = scan_full lvl s.page_db in
      let r = round s qgs w e in
      let after : load_qg_hits lvl codec gid r.0 ≡ ok (some g) =
        ap (λ (o : LoopState lvl.Db × Result (Unit {0})). load_qg_hits lvl codec gid (o.0).query_db)
          (sym r.1 ∙ l)
        ∙ stored in
      let now = sym (r.2 gid) ∙ after in
      elim (Option-cases (find_group gid (query trie qgs pages))) [
        | inl n ↦ inr (rw n at now)
        | inr (g', f) ↦
            let same : g' ≡ g = inj (rw f at now) in
            inl (
              (query_iff trie qgs pages gid url).0 (
                HasQuery-find gid url (query trie qgs pages) g' f
                  (subst (λ (o : Group). IsIn url o.items) (sym same) h)))
      ]
    where
      inj : {x y : Group} → ok (some x) ≡ ok (some y) → x ≡ y
      inj e = cc
