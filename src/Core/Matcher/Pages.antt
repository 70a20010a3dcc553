-- ===== src/Core/Matcher/Pages.antt =====
-- src/worker/QueryLoop.cpp: `_query` over all the pages, without the matcher and the maps.
use contentv.Prelude.{
  ◌≡◌, ◌↔◌, ◌⊎◌, inl, inr, refl, subst, String, List, [], ◌∷◌, none, Bool, true, false, arith,
  str_eq, eq_iff, map, if◌then◌else◌, Bool-cases,
}
use contentv.Prelude.Dict.{Dict, find, IsUnique, insert-IsUnique, IsIn}
use contentv.Core.QueryGroup.{Group}
use contentv.Core.Matcher.{
  Trie, Matcher, list_at, push_at, build_state, no_state, match_text, hit_groups, scan_pages, query,
}
use contentv.Core.Matcher.Hits.{IsIn-push_at, HasQuery, match_text_iff}

-- There is a page of that url, with a content of which `P` holds.
abbrev pub HasPage : (String → Type 0) → String → List (String × String) → Type 0
HasPage P url [] = ⊥
HasPage P url ((u, content) ∷ pages) = ((u ≡ url) × P content) ⊎ HasPage P url pages

HasPage-imp :
    (P Q : String → Type 0) (url : String) (pages : List (String × String))
    → ((content : String) → P content → Q content)
    → HasPage P url pages
    → HasPage Q url pages
HasPage-imp P Q url [] f h = h
HasPage-imp P Q url ((u, content) ∷ pages) f (inl h) = inl (h.0, f content h.1)
HasPage-imp P Q url ((u, content) ∷ pages) f (inr h) = inr (HasPage-imp P Q url pages f h)

module _ (trie : Trie) where
  IsIn-hit_groups :
      (url gid u : String) (gids : List String) (hits : Dict (List String))
      → IsIn url (list_at gid (hit_groups trie u gids hits))
        ↔ (((u ≡ url) × IsIn gid gids) ⊎ IsIn url (list_at gid hits))
  unfolding hit_groups
  IsIn-hit_groups url gid u [] hits = (inr, λ h. elim h [ inl a ↦ absurd a.1 | inr b ↦ b ])
  IsIn-hit_groups url gid u (g ∷ gids) hits =
      let ih = IsIn-hit_groups url gid u gids (push_at g u hits) in
      let one = IsIn-push_at url g gid u hits in
      (
        (λ h. elim (ih.0 h) [
          | inl a ↦ inl (a.0, inr a.1)
          | inr b ↦ elim (one.0 b) [ inl c ↦ inl (c.1, inl c.0) | inr d ↦ inr d ]
        ]),
        (λ h. elim h [
          | inl a ↦ elim (a.1) [
            | inl c ↦ ih.1 (inr (one.1 (inl (c, a.0))))
            | inr d ↦ ih.1 (inl (a.0, d))
          ]
          | inr b ↦ ih.1 (inr (one.1 (inr b)))
        ]),
      )

  IsIn-scan_pages :
      (url gid : String) (m : Matcher) (pages : List (String × String)) (hits : Dict (List String))
      → IsIn url (list_at gid (scan_pages trie m pages hits)) ↔ (
          HasPage (λ content. IsIn gid (match_text trie m content)) url pages
          ⊎ IsIn url (list_at gid hits))
  unfolding scan_pages
  IsIn-scan_pages url gid m [] hits = (inr, λ h. elim h [ inl a ↦ absurd a | inr b ↦ b ])
  IsIn-scan_pages url gid m ((u, content) ∷ pages) hits =
      let ih =
        IsIn-scan_pages url gid m pages (hit_groups trie u (match_text trie m content) hits) in
      let one = IsIn-hit_groups url gid u (match_text trie m content) hits in
      (
        (λ h. elim (ih.0 h) [
          | inl a ↦ inl (inr a)
          | inr b ↦ elim (one.0 b) [ inl c ↦ inl (inl c) | inr d ↦ inr d ]
        ]),
        (λ h. elim h [
          | inl a ↦ elim a [ inl c ↦ ih.1 (inr (one.1 (inl c))) | inr d ↦ ih.1 (inl d) ]
          | inr b ↦ ih.1 (inr (one.1 (inr b)))
        ]),
      )

  hit_groups-IsUnique :
      (u : String) (gids : List String) (hits : Dict (List String))
      → IsUnique hits
      → IsUnique (hit_groups trie u gids hits)
  unfolding hit_groups push_at
  hit_groups-IsUnique u [] hits q = q
  hit_groups-IsUnique u (g ∷ gids) hits q =
      hit_groups-IsUnique u gids (push_at g u hits) (insert-IsUnique g _ hits q)

  scan_pages-IsUnique :
      (m : Matcher) (pages : List (String × String)) (hits : Dict (List String))
      → IsUnique hits
      → IsUnique (scan_pages trie m pages hits)
  unfolding scan_pages
  scan_pages-IsUnique m [] hits q = q
  scan_pages-IsUnique m ((u, content) ∷ pages) hits q =
      scan_pages-IsUnique m pages (hit_groups trie u (match_text trie m content) hits)
        (hit_groups-IsUnique u (match_text trie m content) hits q)

list_at-none : (gid : String) (d : Dict (List String)) → find gid d ≡ none → list_at gid d ≡ []
unfolding list_at
list_at-none gid d n = rw (n, list_at) refl

list_at_cons :
    (gid k : String) (l : List String) (d : Dict (List String))
    → list_at gid ((k, l) ∷ d) ≡ (if str_eq k gid then l else list_at gid d)
unfolding list_at find
list_at_cons gid k l d = ground arith

abbrev pub of_entry : String × List String → Group
of_entry e = record { gid = e.0; items = e.1 }

-- The groups made of a map's entries have what the map has.
HasQuery-map :
    (gid url : String) (d : Dict (List String))
    → IsUnique d
    → HasQuery gid url (map of_entry d) ↔ IsIn url (list_at gid d)
unfolding list_at find
HasQuery-map gid url [] u = (λ h. h, λ h. h)
HasQuery-map gid url ((k, l) ∷ d) u =
    let ih = HasQuery-map gid url d u.1 in
    elim (Bool-cases (str_eq k gid)) [
      | inl e ↦
          let key : k ≡ gid = (eq_iff k gid).0 e in
          let gone : list_at gid d ≡ [] =
            list_at-none gid d (subst (λ v. find v d ≡ none) key u.0) in
          rw (list_at_cons gid k l d, e)
            (
              (λ h. elim h [ inl a ↦ a.1 | inr b ↦ absurd (subst (IsIn url) gone (ih.0 b)) ]),
              (λ h. inl (key, h)),
            )
      | inr e ↦
          rw (list_at_cons gid k l d, e)
            (
              (λ h. elim h [ inl a ↦ absurd (clash ((eq_iff k gid).1 a.0) e) | inr b ↦ ih.0 b ]),
              (λ h. inr (ih.1 h)),
            )
    ]
  where
    clash : {b : Bool} → b ≡ true → b ≡ false → ⊥
    clash f g = cc

-- The groups that `_query` returns are made of a map's entries.
pub query-entries :
    (trie : Trie) (qgs : List Group) (pages : List (String × String))
    → (m : Dict (List String)) × IsUnique m × (query trie qgs pages ≡ map of_entry m)
unfolding query
query-entries trie qgs pages = (
  scan_pages trie (build_state qgs no_state) pages [],
  scan_pages-IsUnique trie (build_state qgs no_state) pages [] tt,
  refl,
)

-- `_query` records a url as a hit of a group exactly when there is a page of that url in which a query
-- of some group of that id occurs.
pub query_iff :
    (trie : Trie) (qgs : List Group) (pages : List (String × String)) (gid url : String)
    → HasQuery gid url (query trie qgs pages)
      ↔ HasPage (λ content. (q : String) × HasQuery gid q qgs × trie.Occurs q content) url pages
unfolding query list_at find
query_iff trie qgs pages gid url =
    let m = build_state qgs no_state in
    let all =
      HasQuery-map gid url (scan_pages trie m pages []) (scan_pages-IsUnique trie m pages [] tt) in
    let scan = IsIn-scan_pages trie url gid m pages [] in
    (
      (λ h. elim (scan.0 (all.0 h)) [
        | inl a ↦ HasPage-imp _ _ url pages (λ content. (match_text_iff trie qgs gid content).0) a
        | inr b ↦ absurd b
      ]),
      (λ h. all.1 (
          scan.1 (
            inl
              (HasPage-imp _ _ url pages (λ content. (match_text_iff trie qgs gid content).1) h)))),
    )
