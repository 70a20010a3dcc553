-- ===== src/Tests/ApiRuns.antt =====
-- The theorems of the HTTP API and of the query loop at concrete inputs.
use contentv.Prelude.{
  ◌+◌, ◌≡◌, ◌↔◌, ◌⊎◌, inl, refl, String, List, [], ◌∷◌, none, some, arith, map, str_eq,
  if◌then◌else◌,
}
use contentv.Prelude.Text.{◌<>◌, drop_chars, take_chars}
use contentv.Prelude.Dict.{find, insert, erase, IsIn, insert-IsUnique, erase-IsUnique}
use contentv.Prelude.Result.{ok}
use contentv.Core.QueryGroup.{queries, hits, Group, as_json, dump, load}
use contentv.Core.Matcher.{query}
use contentv.Ldb.QueryDb.{QueryDb, save_qg_hits_or_throw, load_qg, load_qg_hits, get_all_qg}
use contentv.Ldb.PageDb.{scan_full}
use contentv.Api.Parsing.{Found, passed, parse_bearer}
use contentv.Api.Crypto.{token_expires_in, hash, auth, check_bearer, check_token}
use contentv.Api.Crypto.Tokens.{IsBearer, auth_iff}
use contentv.Api.Response.{ApiRequest, ApiResponse, ok_response, bad_request, internal_error}
use contentv.Api.Handlers.{token_response, list_response, found_group, found_hits}
use contentv.Api.Server.{get, post, delete, Call, sent, serve, serve_all}
use contentv.Api.Server.Issue.{issued, serve-issued}
use contentv.Api.Server.Access.{IsRefused, serve-IsRefused, IsWrite, serve-writes}
use contentv.Api.Server.Groups.{serve-set-get, serve-delete-get, serve-delete_half}
use contentv.Api.Server.Keyed.{serve_all-list}
use contentv.Worker.QueryLoop.{LoopState, loop_impl}
use contentv.Worker.QueryLoop.Stored.{IsHit, loop_impl-IsHit, loop_impl-stored}
use contentv.Tests.Instances.{group_codec, empty_disk}
use contentv.Tests.Helpers.{json, trie}
use contentv.Tests.Clients.{lvl, good_lvl, strings}

abbrev bearer : Found
bearer name = some "Bearer _KEY_abcdef08.24"

abbrev basic : Found
basic name = some ("Basic " <> "_API_KEY_" <> ":" <> "_API_SECRET_KEY_")

abbrev stranger : Found
stranger name = none

auth_iff_example : (auth strings bearer ≡ passed tt) ↔ IsBearer strings bearer
auth_iff_example = auth_iff strings bearer

accepted : auth strings bearer ≡ passed tt
unfolding auth check_bearer check_token hash parse_bearer drop_chars take_chars
accepted = refl

abbrev group : Group
group = record { gid = "g"; items = "cat" ∷ "dog" ∷ [] }

abbrev nothing_stored : QueryDb lvl.Db
nothing_stored = record { qg_db = empty_disk; qg_hits_db = empty_disk }

abbrev request : Found → String → ApiRequest
request headers gid = record {
  headers = headers;
  body = as_json json queries group;
  params = λ name. some gid;
}

serve-issued_example :
    (serve lvl group_codec json strings "abcdef" get "/token" (request basic "g") nothing_stored
      ≡ some (nothing_stored, token_response json (issued strings "abcdef", token_expires_in)))
    × (serve lvl group_codec json strings "" get "/check_token"
          (request (λ name. some ("Bearer " <> issued strings "abcdef")) "g")
          nothing_stored
        ≡ some (nothing_stored, ok_response json))
unfolding drop_chars
serve-issued_example =
    serve-issued lvl group_codec json strings "abcdef" "" (request basic "g")
      (request (λ name. some ("Bearer " <> issued strings "abcdef")) "g") nothing_stored
      nothing_stored refl (omega arith) refl refl

serve-IsRefused_example :
    IsRefused lvl group_codec json strings
      (request stranger "g")
      nothing_stored
      "/delete_query_group"
      "Authorization header not found"
      (nothing_stored, contentv.Api.Response.access_denied json "Authorization header not found")
unfolding serve auth
serve-IsRefused_example =
    serve-IsRefused lvl group_codec json strings (request stranger "g") nothing_stored "" delete
      "/delete_query_group" "Authorization header not found"
      (nothing_stored, contentv.Api.Response.access_denied json "Authorization header not found")
      refl refl

abbrev qg_table : lvl.Db
qg_table = (
  insert "g" (dump group_codec queries group) [],
  insert-IsUnique "g" (dump group_codec queries group) [] tt,
)

abbrev hits_table : lvl.Db
hits_table = (
  insert "g" (dump group_codec hits group) [],
  insert-IsUnique "g" (dump group_codec hits group) [] tt,
)

-- The group is stored.
abbrev stored : QueryDb lvl.Db
stored = record { qg_db = qg_table; qg_hits_db = empty_disk }

abbrev with_hits : QueryDb lvl.Db
with_hits = record { qg_db = qg_table; qg_hits_db = hits_table }

serve-set-get_example :
    (serve lvl group_codec json strings "" post "/set_query_group"
        (request bearer "g")
        nothing_stored
      ≡ some (stored, ok_response json))
    × (serve lvl group_codec json strings "" get "/get_query_group" (request bearer "h") stored
        ≡ some (
          stored,
          sent (
              found_group json (
                if str_eq "g" "h"
                then ok (some group)
                else load_qg lvl group_codec "h" nothing_stored)),
        ))
unfolding find
serve-set-get_example =
    serve-set-get lvl group_codec json strings "" "" (request bearer "g") (request bearer "h")
      nothing_stored group qg_table "h" accepted refl refl accepted refl

serve-writes_example :
    (stored ≡ nothing_stored)
    ⊎ ((auth strings bearer ≡ passed tt)
        × IsWrite lvl group_codec json strings
            (request bearer "g")
            nothing_stored
            post
            "/set_query_group")
unfolding find
serve-writes_example =
    serve-writes lvl group_codec json strings (request bearer "g") nothing_stored "" post
      "/set_query_group" (stored, ok_response json)
      ((serve-set-get lvl group_codec json strings "" "" (request bearer "g") (request bearer "g")
        nothing_stored group qg_table "g" accepted refl refl accepted refl).0)

abbrev no_groups : QueryDb lvl.Db
no_groups = record {
  qg_db = (erase "g" qg_table.0, erase-IsUnique "g" qg_table.0 qg_table.1);
  qg_hits_db = (erase "g" hits_table.0, erase-IsUnique "g" hits_table.0 hits_table.1);
}

serve-delete-get_example :
    (serve lvl group_codec json strings "" delete "/delete_query_group"
        (request bearer "g")
        with_hits
      ≡ some (no_groups, ok_response json))
    × (serve lvl group_codec json strings "" get "/get_query_group" (request bearer "g") no_groups
        ≡ some (
          no_groups,
          sent (
              found_group json
                (if str_eq "g" "g" then ok none else load_qg lvl group_codec "g" with_hits)),
        ))
    × (serve lvl group_codec json strings "" get "/get_hits" (request bearer "g") no_groups
        ≡ some (
          no_groups,
          sent (
              found_hits json
                (if str_eq "g" "g" then ok none else load_qg_hits lvl group_codec "g" with_hits)),
        ))
unfolding find insert
serve-delete-get_example =
    serve-delete-get lvl group_codec json strings "" "" (request bearer "g") (request bearer "g")
      with_hits "g" "g" no_groups.qg_db no_groups.qg_hits_db accepted refl refl refl accepted refl

-- The table of the groups can be written, and that of the hits cannot.
abbrev half : QueryDb lvl.Db
half = record {
  qg_db = qg_table;
  qg_hits_db = (
    insert "read_only" "" hits_table.0,
    insert-IsUnique "read_only" "" hits_table.0 hits_table.1,
  );
}

serve-delete_half_example :
    (serve lvl group_codec json strings "" delete "/delete_query_group" (request bearer "g") half
      ≡ some
          (record half { qg_db = no_groups.qg_db }, bad_request json ("err: deleting gid:" <> "g")))
    × (load_qg lvl group_codec "g" (record half { qg_db = no_groups.qg_db }) ≡ ok none)
    × (load_qg_hits lvl group_codec "g" (record half { qg_db = no_groups.qg_db })
        ≡ load_qg_hits lvl group_codec "g" half)
unfolding find insert
serve-delete_half_example =
    serve-delete_half lvl group_codec json strings "" (request bearer "g") half "g" "read only"
      no_groups.qg_db accepted refl refl refl

abbrev full : QueryDb lvl.Db
full = record { qg_db = half.qg_hits_db; qg_hits_db = empty_disk }

abbrev two_calls : List (Call lvl group_codec json strings)
two_calls =
    record { random = ""; method = post; path = "/set_query_group"; req = request bearer "g" }
    ∷ record { random = ""; method = get; path = "/version"; req = request stranger "g" }
    ∷ []

serve_all-list_example :
    (gs : List Group) × (serve lvl group_codec json strings "" get "/get_query_groups_list"
        (request bearer "g")
        (serve_all lvl group_codec json strings two_calls nothing_stored)
      ≡ some
          (serve_all lvl group_codec json strings two_calls nothing_stored, list_response json gs))
    × (map (λ (g : Group). g.gid) gs
        ≡ map
            (λ (e : String × String). e.0)
            (lvl.scan_full (serve_all lvl group_codec json strings two_calls nothing_stored).qg_db))
serve_all-list_example =
    serve_all-list lvl group_codec json strings two_calls nothing_stored "" (request bearer "g")
      (record { groups = tt; group_hits = tt }) accepted

-- One page, on which a query of the group occurs.
abbrev loop_state : LoopState good_lvl.Db
loop_state = record {
  query_db = record { qg_db = qg_table; qg_hits_db = empty_disk };
  page_db = (insert "https://h/1" "cat" [], insert-IsUnique "https://h/1" "cat" [] tt);
  cycles_count = 4;
}

loop_impl-IsHit_example :
    (s' : LoopState good_lvl.Db) × (loop_impl good_lvl group_codec trie loop_state ≡ (s', ok tt))
    × (s'.cycles_count ≡ 4 + 1)
    × ((g : Group) × (load_qg_hits good_lvl group_codec "g" s'.query_db ≡ ok (some g))
        × IsIn "https://h/1" g.items)
unfolding get_all_qg dump load insert scan_full
loop_impl-IsHit_example =
    loop_impl-IsHit good_lvl group_codec trie loop_state (group ∷ []) "g" "https://h/1"
      (λ k v d. (_, refl)) refl (inl (refl, ("cat", inl (refl, inl refl), refl)))

abbrev hit_state : LoopState good_lvl.Db
hit_state = record loop_state {
  query_db = record {
    qg_db = qg_table;
    qg_hits_db = (
      insert "g" (dump group_codec hits (record { gid = "g"; items = "https://h/1" ∷ [] })) [],
      insert-IsUnique "g" (dump group_codec hits (record { gid = "g"; items = "https://h/1" ∷ [] }))
          [] tt,
    );
  };
  cycles_count = 5;
}

loop_impl-stored_example :
    IsHit good_lvl group_codec trie
      (group ∷ [])
      "g"
      "https://h/1"
      (scan_full good_lvl loop_state.page_db)
    ⊎ (load_qg_hits good_lvl group_codec "g" loop_state.query_db
        ≡ ok (some (record { gid = "g"; items = "https://h/1" ∷ [] })))
unfolding get_all_qg dump load insert scan_full loop_impl load_qg_hits find query
    save_qg_hits_or_throw
loop_impl-stored_example =
    loop_impl-stored good_lvl group_codec trie loop_state hit_state (group ∷ []) "g" "https://h/1"
      (record { gid = "g"; items = "https://h/1" ∷ [] }) (λ k v d. (_, refl)) refl refl refl
      (inl refl)
