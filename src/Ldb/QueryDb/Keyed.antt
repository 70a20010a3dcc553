-- ===== src/Ldb/QueryDb/Keyed.antt =====
-- src/ldb/QueryDb.cpp: every entry of a table is the dump of a group whose id is its key.
use contentv.Prelude.{
  ◌≡◌, refl, sym, ◌∙◌, subst, String, List, [], ◌∷◌, none, some, str_eq, eq_iff, Bool-cases, inl,
  inr, All, map,
}
use contentv.Prelude.Dict.{Dict, All-find, find-All}
use contentv.Prelude.Result.{ok}
use contentv.Core.QueryGroup.{Kind, queries, hits, Group, GroupCodec, dump, load}
use contentv.Ldb.Lvl.{LvlDb}
use contentv.Ldb.QueryDb.{QueryDb, load_all}

module _ (codec : GroupCodec) (k : Kind) where
  abbrev pub EntryIsKeyed : String × String → Type 0
  EntryIsKeyed e = (g : Group) × (load codec k e.1 ≡ ok g) × (g.gid ≡ e.0)

  -- Such entries are all read, and give the keys as ids.
  pub load_all-keys :
      (es : Dict String)
      → All EntryIsKeyed es
      → (gs : List Group) × (load_all codec k es ≡ ok gs)
        × (map (λ (g : Group). g.gid) gs ≡ map (λ (e : String × String). e.0) es)
  unfolding load_all
  load_all-keys [] a = ([], refl, refl)
  load_all-keys (e ∷ es) a =
      let rest = load_all-keys es a.1 in
      (a.0.0 ∷ rest.0, rw (a.0.1) (rw (rest.1) refl), (λ i. a.0.2 i ∷ rest.2 i))

  dump-EntryIsKeyed : (g : Group) → EntryIsKeyed (g.gid, dump codec k g)
  unfolding dump load
  dump-EntryIsKeyed g = (g, rw (codec.parse-serialize k g.gid g.items, load) refl, refl)

module _ (lvl : LvlDb) (codec : GroupCodec) (k : Kind) where
  abbrev pub TableIsKeyed : lvl.Db → Type 0
  TableIsKeyed d = All (EntryIsKeyed codec k) (lvl.scan_full d)

  entry_of :
      (d : lvl.Db) (j text : String)
      → TableIsKeyed d
      → lvl.load j d ≡ some text
      → EntryIsKeyed codec k (j, text)
  entry_of d j text a e =
      find-All (EntryIsKeyed codec k) j text (lvl.scan_full d) a (lvl.find-scan_full j d ∙ e)

  table_of :
      (d : lvl.Db)
      → ((j text : String) → lvl.load j d ≡ some text → EntryIsKeyed codec k (j, text))
      → TableIsKeyed d
  table_of d h =
      All-find (EntryIsKeyed codec k) (lvl.scan_full d) (lvl.scan_full-IsUnique d)
        (λ j text e. h j text (sym (lvl.find-scan_full j d) ∙ e))

  pub save-TableIsKeyed :
      (d d' : lvl.Db) (g : Group)
      → lvl.save g.gid (dump codec k g) d ≡ ok d'
      → TableIsKeyed d
      → TableIsKeyed d'
  save-TableIsKeyed d d' g s a = table_of d' (λ j text e.
      let l = sym (lvl.load-save g.gid j (dump codec k g) d d' s) ∙ e in
      elim (Bool-cases (str_eq g.gid j)) [
        | inl t ↦
            subst (λ v. EntryIsKeyed codec k (j, v)) (some_inj (rw t at l))
              (subst (λ v. EntryIsKeyed codec k (v, dump codec k g)) ((eq_iff g.gid j).0 t)
                (dump-EntryIsKeyed codec k g))
        | inr t ↦ entry_of d j text a (rw t at l)
      ])
    where
      some_inj : {x y : String} → some x ≡ some y → x ≡ y
      some_inj e = cc

  pub del-TableIsKeyed :
      (d d' : lvl.Db) (gid : String) → lvl.del gid d ≡ ok d' → TableIsKeyed d → TableIsKeyed d'
  del-TableIsKeyed d d' gid s a = table_of d' (λ j text e.
      let l = sym (lvl.load-del gid j d d' s) ∙ e in
      elim (Bool-cases (str_eq gid j)) [
        | inl t ↦ absurd (clash (rw t at l))
        | inr t ↦ entry_of d j text a (rw t at l)
      ])
    where
      clash : {x : String} → none ≡ some x → ⊥
      clash e = cc

module _ (lvl : LvlDb) (codec : GroupCodec) where
  -- In both tables the key of each entry is the id of the group that its text is a dump of.
  pub record IsKeyed (d : QueryDb lvl.Db) : Type 0 where
    pub groups : TableIsKeyed lvl codec queries d.qg_db
    pub group_hits : TableIsKeyed lvl codec hits d.qg_hits_db
