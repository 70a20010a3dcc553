-- ===== src/Api/Handlers.antt =====
-- The handlers of src/api/v1: APIv1HdlVersion.cpp, APIv1HdlToken.cpp, APIv1HdlQG.cpp and
-- APIv1HdlHits.cpp. A handler changes the tables and ends with a response or with an exception.
use contentv.Prelude.{ℕ, String, List, [], ◌∷◌, Option, none, some, length, map}
use contentv.Prelude.Text.{◌<>◌}
use contentv.Prelude.Result.{Result, ok, throws}
use contentv.Core.QueryGroup.{
  queries, hits, Group, GroupCodec, JsonCpp, append_all, to_json_value, from_json,
}
use contentv.Ldb.Lvl.{LvlDb}
use contentv.Ldb.QueryDb.{
  QueryDb, Outcome, save_qg, load_qg, delete_qg, delete_qg_hits, load_qg_hits, get_all_qg,
}
use contentv.Misc.{Strings}
use contentv.Api.Parsing.{Checked, passed, failed, parse_api_keys}
use contentv.Api.Crypto.{api_keys, gen_token}
use contentv.Api.Response.{
  ApiRequest, ApiResponse, set_response, access_denied, bad_request, internal_error, ok_response,
  ok_result,
}

abbrev pub version_json_str : String
version_json_str = "{\"version\":\"1.0\"}"

-- `APIv1HdlVersion.cpp`
unfoldable pub version_response : ApiResponse
unfolding set_response
version_response = set_response 200 version_json_str

module _ (json : JsonCpp) where
  open json use {null, string, number, set, write}

  -- The answer of `hdlToken` with a token.
  unfoldable pub token_response : String × ℕ → ApiResponse
  unfolding set_response
  token_response t = set_response 200 (
      write (
        set "expires_in" (number t.1) (
          set "token_type" (string "Bearer")
            (set "access_token" (string t.0) (set "status" (string "ok") null)))))

  -- The rest of `hdlToken`, from the keys and the random characters.
  unfoldable pub token_of_keys : Strings → String → Checked (String × String) → ApiResponse
  unfolding token_response access_denied
  token_of_keys strings random (failed e) = access_denied json e
  token_of_keys strings random (passed k) = elim (gen_token strings api_keys k.0 k.1 random) [
    | none ↦ access_denied json "check API keys"
    | some t ↦ token_response t
  ]

  unfoldable pub hdl_token : Strings → String → ApiRequest → ApiResponse
  unfolding token_of_keys
  hdl_token strings random req = token_of_keys strings random (parse_api_keys strings req.headers)

  -- The array of the ids, and the answer of `hdlGetQueryGroupsList`.
  unfoldable pub list_response : List Group → ApiResponse
  unfolding set_response append_all
  list_response [] =
      set_response 200
        (write (set "query_groups_count" (number 0) (set "status" (string "ok") null)))
  list_response (g ∷ cgs) = set_response 200 (
      write (
        set "query_groups" (append_all json null (map (λ (c : Group). c.gid) (g ∷ cgs)))
          (set "query_groups_count" (number (length (g ∷ cgs))) (set "status" (string "ok") null))))

  unfoldable pub listed : Result (List Group) → Result ApiResponse
  unfolding list_response
  listed (ok cgs) = ok (list_response cgs)
  listed (throws what) = throws what

  unfoldable pub found_group : Result (Option Group) → Result ApiResponse
  unfolding bad_request ok_result
  found_group (throws what) = throws what
  found_group (ok none) = ok (bad_request json "err: not exist")
  found_group (ok (some qg)) = ok (ok_result json (to_json_value json queries qg))

  abbrev pub no_hits : Group
  no_hits = record { gid = ""; items = [] }

  unfoldable pub found_hits : Result (Option Group) → Result ApiResponse
  unfolding ok_result
  found_hits (throws what) = throws what
  found_hits (ok none) = ok (ok_result json (to_json_value json hits no_hits))
  found_hits (ok (some g)) = ok (ok_result json (to_json_value json hits g))

module _ (lvl : LvlDb) (codec : GroupCodec) (json : JsonCpp) where
  abbrev Tables : Type 0
  Tables = QueryDb lvl.Db

  abbrev pub Handler : Type 0
  Handler = ApiRequest → Tables → Tables × Result ApiResponse

  abbrev gid_error : String
  gid_error = "err: parsing gid param"

  unfoldable pub hdl_get_query_groups_list : Handler
  unfolding listed
  hdl_get_query_groups_list req d = (d, listed json (get_all_qg lvl codec d))

  unfoldable pub set_answer : String → Outcome lvl.Db → Tables × Result ApiResponse
  unfolding internal_error ok_response
  set_answer gid o = elim (o.err_str) [
    | none ↦ (o.tables, ok (ok_response json))
    | some e ↦ (o.tables, ok (internal_error json ("err: set gid:" <> gid)))
  ]

  -- From the result of `QueryGroup::fromJson` on.
  unfoldable pub set_group : Tables → Result Group → Tables × Result ApiResponse
  unfolding set_answer
  set_group d (throws what) = (d, throws what)
  set_group d (ok qg) = set_answer qg.gid (save_qg lvl codec qg d)

  unfoldable pub hdl_set_query_group : Handler
  unfolding set_group bad_request
  hdl_set_query_group req d = elim (json.read req.body) [
    | none ↦ (d, ok (bad_request json "err: parsing json req body"))
    | some js ↦ set_group d (from_json json queries req.body)
  ]

  unfoldable pub hdl_get_query_group : Handler
  unfolding found_group bad_request
  hdl_get_query_group req d = elim (req.params "gid") [
    | none ↦ (d, ok (bad_request json gid_error))
    | some gid ↦ (d, found_group json (load_qg lvl codec gid d))
  ]

  -- The second operand of `||`, which deletes the hits.
  unfoldable pub delete_answer : String → Outcome lvl.Db → Tables × Result ApiResponse
  unfolding bad_request ok_response
  delete_answer gid o = elim (o.err_str) [
    | none ↦ (o.tables, ok (ok_response json))
    | some e ↦ (o.tables, ok (bad_request json ("err: deleting gid:" <> gid)))
  ]

  unfoldable pub delete_both : String → Outcome lvl.Db → Tables × Result ApiResponse
  unfolding delete_answer
  delete_both gid o = elim (o.err_str) [
    | none ↦ delete_answer gid (delete_qg_hits lvl codec gid o.tables)
    | some e ↦ (o.tables, ok (bad_request json ("err: deleting gid:" <> gid)))
  ]

  unfoldable pub hdl_delete_query_group : Handler
  unfolding delete_both bad_request
  hdl_delete_query_group req d = elim (req.params "gid") [
    | none ↦ (d, ok (bad_request json gid_error))
    | some gid ↦ delete_both gid (delete_qg lvl codec gid d)
  ]

  unfoldable pub hdl_get_hits : Handler
  unfolding found_hits bad_request
  hdl_get_hits req d = elim (req.params "gid") [
    | none ↦ (d, ok (bad_request json gid_error))
    | some gid ↦ (d, found_hits json (load_qg_hits lvl codec gid d))
  ]
