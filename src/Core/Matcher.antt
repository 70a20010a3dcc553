-- ===== src/Core/Matcher.antt =====
-- src/core/QueryGroupMatcher.h and .cpp, and `_query` of src/worker/QueryLoop.cpp: which groups a
-- text hits, and which pages a group hits. The orders of sets and maps are not modelled.
pub mod Hits
pub mod Pages
use contentv.Prelude.{
  String, List, [], ◌∷◌, ◌++◌, Option, none, some, Bool, true, false, str_eq, if◌then◌else◌, map,
  ◌↔◌,
}
use contentv.Prelude.Dict.{Dict, find, insert, IsIn, add_to_set}
use contentv.Core.QueryGroup.{Group}

-- `aho_corasick::trie` with the keywords, and `parse_text`: the keywords that it meets in a text are
-- those that were inserted and that occur in it.
pub record Trie : Type 1 where
  pub Occurs : String → String → Type 0
  pub parse_text : List String → String → List String
  pub parse_text_iff :
      (keywords : List String) (text query : String)
      → IsIn query (parse_text keywords text) ↔ (IsIn query keywords × Occurs query text)

pub record Matcher : Type 0 where
  pub keywords : List String
  pub keyword_groups : Dict (List String)

-- `m[key]` of a map to vectors.
unfoldable pub list_at : String → Dict (List String) → List String
list_at k m = elim (find k m) [ none ↦ [] | some l ↦ l ]

-- `m[key].push_back(x)`
unfoldable pub push_at : String → String → Dict (List String) → Dict (List String)
unfolding list_at
push_at k x m = insert k (list_at k m ++ x ∷ []) m

-- The two loops of `_buildState`.
unfoldable pub build_group : String → List String → Matcher → Matcher
unfolding push_at add_to_set
build_group gid [] m = m
build_group gid (q ∷ queries) m =
    build_group gid queries (record {
      keywords = add_to_set q m.keywords;
      keyword_groups = push_at q gid m.keyword_groups;
    })

unfoldable pub build_state : List Group → Matcher → Matcher
unfolding build_group
build_state [] m = m
build_state (g ∷ qgs) m = build_state qgs (build_group g.gid g.items m)

abbrev pub no_state : Matcher
no_state = record { keywords = []; keyword_groups = [] }

-- `gids_set.insert(gid)` for each of the gids.
unfoldable pub add_all_to_set : List String → List String → List String
unfolding add_to_set
add_all_to_set [] s = s
add_all_to_set (x ∷ xs) s = add_all_to_set xs (add_to_set x s)

-- The loop of `match` over the matches of the trie.
unfoldable pub collect_gids : Dict (List String) → List String → List String → List String
unfolding add_all_to_set list_at
collect_gids groups [] s = s
collect_gids groups (q ∷ matches) s =
    collect_gids groups matches (add_all_to_set (list_at q groups) s)

module _ (trie : Trie) where
  -- The gids; `match` returns whether there are any.
  unfoldable pub match_text : Matcher → String → List String
  unfolding collect_gids
  match_text m content = collect_gids m.keyword_groups (trie.parse_text m.keywords content) []

  -- The loop over the gids of one page: `qgs_hits_map[gid].hits.push_back(url)`.
  unfoldable pub hit_groups : String → List String → Dict (List String) → Dict (List String)
  unfolding push_at
  hit_groups url [] hits = hits
  hit_groups url (gid ∷ gids) hits = hit_groups url gids (push_at gid url hits)

  -- `scanFull` over the pages.
  unfoldable pub scan_pages :
      Matcher → List (String × String) → Dict (List String) → Dict (List String)
  unfolding match_text hit_groups
  scan_pages m [] hits = hits
  scan_pages m ((url, content) ∷ pages) hits =
      scan_pages m pages (hit_groups url (match_text m content) hits)

  -- `_query`: a `QueryGroupHits` for each entry of the map.
  unfoldable pub query : List Group → List (String × String) → List Group
  unfolding build_state scan_pages
  query qgs pages =
      map (λ e. record { gid = e.0; items = e.1 }) (scan_pages (build_state qgs no_state) pages [])
