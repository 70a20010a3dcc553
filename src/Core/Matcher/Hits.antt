-- ===== src/Core/Matcher/Hits.antt =====
-- src/core/QueryGroupMatcher.cpp: the groups that a text hits, without the trie.
use contentv.Prelude.{
  ◌≡◌, ◌↔◌, ◌⊎◌, inl, inr, refl, sym, subst, ap, String, List, [], ◌∷◌, ◌++◌, false, arith, str_eq,
  eq_iff, if◌then◌else◌, Bool-cases,
}
use contentv.Prelude.Dict.{Dict, find, find-insert, IsIn, add_to_set, IsIn-add_to_set}
use contentv.Core.QueryGroup.{Group}
use contentv.Core.Matcher.{
  Trie, Matcher, list_at, push_at, build_group, build_state, no_state, add_all_to_set, collect_gids,
  match_text,
}

IsIn-add_all_to_set :
    (x : String) (xs s : List String) → IsIn x (add_all_to_set xs s) ↔ (IsIn x xs ⊎ IsIn x s)
unfolding add_all_to_set
IsIn-add_all_to_set x [] s = (inr, λ h. elim h [ inl a ↦ absurd a | inr b ↦ b ])
IsIn-add_all_to_set x (y ∷ xs) s =
    let ih = IsIn-add_all_to_set x xs (add_to_set y s) in
    let one = IsIn-add_to_set x y s in
    (
      (λ h. elim (ih.0 h) [
        | inl a ↦ inl (inr a)
        | inr b ↦ elim (one.0 b) [ inl p ↦ inl (inl p) | inr q ↦ inr q ]
      ]),
      (λ h. elim h [
        | inl a ↦ elim a [ inl p ↦ ih.1 (inr (one.1 (inl p))) | inr q ↦ ih.1 (inl q) ]
        | inr b ↦ ih.1 (inr (one.1 (inr b)))
      ]),
    )

-- One of the keywords has the gid among its groups.
HasGid : String → Dict (List String) → List String → Type 0
HasGid gid groups qs = (q : String) × IsIn q qs × IsIn gid (list_at q groups)

IsIn-collect_gids :
    (gid : String) (groups : Dict (List String)) (qs s : List String)
    → IsIn gid (collect_gids groups qs s) ↔ (HasGid gid groups qs ⊎ IsIn gid s)
unfolding collect_gids HasGid
IsIn-collect_gids gid groups [] s = (inr, λ h. elim h [ inl a ↦ absurd a.1 | inr b ↦ b ])
IsIn-collect_gids gid groups (q ∷ qs) s =
    let ih = IsIn-collect_gids gid groups qs (add_all_to_set (list_at q groups) s) in
    let one = IsIn-add_all_to_set gid (list_at q groups) s in
    (
      (λ h. elim (ih.0 h) [
        | inl a ↦ inl (a.0, inr a.1, a.2)
        | inr b ↦ elim (one.0 b) [ inl p ↦ inl (q, inl refl, p) | inr c ↦ inr c ]
      ]),
      (λ h. elim h [
        | inl a ↦ ih.1 (elim (a.1) [
          | inl p ↦ inr (one.1 (inl (subst (λ v. IsIn gid (list_at v groups)) (sym p) (a.2))))
          | inr c ↦ inl (a.0, c, a.2)
        ])
        | inr b ↦ ih.1 (inr (one.1 (inr b)))
      ]),
    )

IsIn-append_end : (x y : String) (l : List String) → IsIn x (l ++ y ∷ []) ↔ (IsIn x l ⊎ (y ≡ x))
IsIn-append_end x y [] = (
  (λ h. elim h [ inl a ↦ inr a | inr b ↦ absurd b ]),
  (λ h. elim h [ inl a ↦ absurd a | inr b ↦ inl b ]),
)
IsIn-append_end x y (z ∷ l) =
    let ih = IsIn-append_end x y l in
    (
      (λ h. elim h [
        | inl a ↦ inl (inl a)
        | inr b ↦ elim (ih.0 b) [ inl c ↦ inl (inr c) | inr d ↦ inr d ]
      ]),
      (λ h. elim h [
        | inl a ↦ elim a [ inl c ↦ inl c | inr d ↦ inr (ih.1 (inl d)) ]
        | inr b ↦ inr (ih.1 (inr b))
      ]),
    )

list_at-push_at :
    (k j y : String) (m : Dict (List String))
    → list_at j (push_at k y m) ≡ (if str_eq k j then list_at k m ++ y ∷ [] else list_at j m)
unfolding list_at push_at
list_at-push_at k j y m = ground (arith, find-insert k j (list_at k m ++ y ∷ []) m)

pub IsIn-push_at :
    (x k j y : String) (m : Dict (List String))
    → IsIn x (list_at j (push_at k y m)) ↔ (((k ≡ j) × (y ≡ x)) ⊎ IsIn x (list_at j m))
IsIn-push_at x k j y m = elim (Bool-cases (str_eq k j)) [
  | inl e ↦
      let key : k ≡ j = (eq_iff k j).0 e in
      let at : list_at k m ≡ list_at j m = ap (λ v. list_at v m) key in
      let both = IsIn-append_end x y (list_at j m) in
      rw (list_at-push_at, e, at)
        (
          (λ h. elim (both.0 h) [ inl a ↦ inr a | inr b ↦ inl (key, b) ]),
          (λ h. elim h [ inl a ↦ both.1 (inr a.1) | inr b ↦ both.1 (inl b) ]),
        )
  | inr e ↦
      rw (list_at-push_at, e) (inr, (λ h. elim h [ inl a ↦ absurd (no_key e a.0) | inr b ↦ b ]))
]
  where
    no_key : str_eq k j ≡ false → k ≡ j → ⊥
    no_key e q = ground (arith, e, (eq_iff k j).1 q)

-- The gid stands among the groups of the query.
abbrev Recorded : String → String → Matcher → Type 0
Recorded gid q m = IsIn gid (list_at q m.keyword_groups)

Recorded-build_group :
    (gid q g : String) (qs : List String) (m : Matcher)
    → Recorded gid q (build_group g qs m) ↔ (((g ≡ gid) × IsIn q qs) ⊎ Recorded gid q m)
unfolding build_group
Recorded-build_group gid q g [] m = (inr, λ h. elim h [ inl a ↦ absurd a.1 | inr b ↦ b ])
Recorded-build_group gid q g (r ∷ qs) m =
    let m' : Matcher = record {
      keywords = add_to_set r m.keywords;
      keyword_groups = push_at r g m.keyword_groups;
    } in
    let ih = Recorded-build_group gid q g qs m' in
    let one = IsIn-push_at gid r q g m.keyword_groups in
    (
      (λ h. elim (ih.0 h) [
        | inl a ↦ inl (a.0, inr a.1)
        | inr b ↦ elim (one.0 b) [ inl c ↦ inl (c.1, inl c.0) | inr d ↦ inr d ]
      ]),
      (λ h. elim h [
        | inl a ↦ elim (a.1) [
          | inl c ↦ ih.1 (inr (one.1 (inl (c, a.0))))
          | inr d ↦ ih.1 (inl (a.0, d))
        ]
        | inr b ↦ ih.1 (inr (one.1 (inr b)))
      ]),
    )

keywords-build_group :
    (q g : String) (qs : List String) (m : Matcher)
    → (IsIn q qs ⊎ IsIn q m.keywords)
    → IsIn q (build_group g qs m).keywords
unfolding build_group
keywords-build_group q g [] m (inl h) = absurd h
keywords-build_group q g [] m (inr h) = h
keywords-build_group q g (r ∷ qs) m h =
    let m' : Matcher = record {
      keywords = add_to_set r m.keywords;
      keyword_groups = push_at r g m.keyword_groups;
    } in
    let one = IsIn-add_to_set q r m.keywords in
    keywords-build_group q g qs m' (elim h [
      | inl a ↦ elim a [ inl c ↦ inr (one.1 (inl c)) | inr d ↦ inl d ]
      | inr b ↦ inr (one.1 (inr b))
    ])

-- Some group of that id has the query.
abbrev pub HasQuery : String → String → List Group → Type 0
HasQuery gid q [] = ⊥
HasQuery gid q (g ∷ qgs) = ((g.gid ≡ gid) × IsIn q g.items) ⊎ HasQuery gid q qgs

Recorded-build_state :
    (gid q : String) (qgs : List Group) (m : Matcher)
    → Recorded gid q (build_state qgs m) ↔ (HasQuery gid q qgs ⊎ Recorded gid q m)
unfolding build_state
Recorded-build_state gid q [] m = (inr, λ h. elim h [ inl a ↦ absurd a | inr b ↦ b ])
Recorded-build_state gid q (g ∷ qgs) m =
    let ih = Recorded-build_state gid q qgs (build_group g.gid g.items m) in
    let one = Recorded-build_group gid q g.gid g.items m in
    (
      (λ h. elim (ih.0 h) [
        | inl a ↦ inl (inr a)
        | inr b ↦ elim (one.0 b) [ inl c ↦ inl (inl c) | inr d ↦ inr d ]
      ]),
      (λ h. elim h [
        | inl a ↦ elim a [ inl c ↦ ih.1 (inr (one.1 (inl c))) | inr d ↦ ih.1 (inl d) ]
        | inr b ↦ ih.1 (inr (one.1 (inr b)))
      ]),
    )

keywords-build_state :
    (gid q : String) (qgs : List Group) (m : Matcher)
    → (HasQuery gid q qgs ⊎ IsIn q m.keywords)
    → IsIn q (build_state qgs m).keywords
unfolding build_state
keywords-build_state gid q [] m (inl h) = absurd h
keywords-build_state gid q [] m (inr h) = h
keywords-build_state gid q (g ∷ qgs) m h =
    keywords-build_state gid q qgs (build_group g.gid g.items m) (elim h [
      | inl a ↦ elim a [
        | inl c ↦ inr (keywords-build_group q g.gid g.items m (inl c.1))
        | inr d ↦ inl d
      ]
      | inr b ↦ inr (keywords-build_group q g.gid g.items m (inr b))
    ])

-- `match`, on a matcher built from the groups, returns a group's id exactly when some group of that id
-- has a query that occurs in the text.
pub match_text_iff :
    (trie : Trie) (qgs : List Group) (gid content : String)
    → IsIn gid (match_text trie (build_state qgs no_state) content)
      ↔ ((q : String) × HasQuery gid q qgs × trie.Occurs q content)
unfolding match_text HasGid list_at find
match_text_iff trie qgs gid content =
    let m = build_state qgs no_state in
    let c = IsIn-collect_gids gid m.keyword_groups (trie.parse_text m.keywords content) [] in
    (
      (λ h. elim (c.0 h) [
        | inl a ↦ (
          a.0,
          elim ((Recorded-build_state gid a.0 qgs no_state).0 a.2) [
            | inl b ↦ b
            | inr d ↦ absurd (nothing gid (a.0) d)
          ],
          ((trie.parse_text_iff m.keywords content (a.0)).0 (a.1)).1,
        )
        | inr b ↦ absurd b
      ]),
      (λ h. c.1 (
          inl (
            h.0,
            (trie.parse_text_iff m.keywords content (h.0)).1
                (keywords-build_state gid h.0 qgs no_state (inl h.1), h.2),
            (Recorded-build_state gid h.0 qgs no_state).1 (inl h.1),
          ))),
    )
  where
    nothing : (g q : String) → IsIn g (list_at q []) → ⊥
    nothing g q h = h
