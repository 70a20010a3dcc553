-- ===== src/Api/Server.antt =====
-- `_setupServer` of src/api/v1/APIv1.cpp: the routes, and the wrapper of their handlers.
pub mod Issue
pub mod Access
pub mod Groups
pub mod Keyed
use contentv.Prelude.{
  String, List, [], ◌∷◌, Option, none, some, Bool, true, false, ◌&&◌, str_eq, if◌then◌else◌,
}
use contentv.Prelude.Result.{Result, ok, throws}
use contentv.Core.QueryGroup.{GroupCodec, JsonCpp}
use contentv.Ldb.Lvl.{LvlDb}
use contentv.Ldb.QueryDb.{QueryDb}
use contentv.Misc.{Strings}
use contentv.Api.Parsing.{Checked, passed, failed}
use contentv.Api.Crypto.{auth}
use contentv.Api.Response.{ApiRequest, ApiResponse, set_response, access_denied, ok_response}
use contentv.Api.Handlers.{
  Handler, version_response, hdl_token, hdl_get_query_groups_list, hdl_set_query_group,
  hdl_get_query_group, hdl_delete_query_group, hdl_get_hits,
}

pub data Method : Type 0 where
  get post delete : Method

unfoldable pub same_method : Method → Method → Bool
same_method get get = true
same_method post post = true
same_method delete delete = true
same_method _ _ = false

abbrev pub internal_server_error : ApiResponse
internal_server_error = record {
  body = "{\"status\":\"internal server error\"}";
  content_type = "application/json";
  status = 500;
}

-- The `catch` of `handler_wrap`.
unfoldable pub sent : Result ApiResponse → ApiResponse
sent (ok res) = res
sent (throws what) = internal_server_error

module _ (lvl : LvlDb) (codec : GroupCodec) (json : JsonCpp) (strings : Strings) where
  abbrev Tables : Type 0
  Tables = QueryDb lvl.Db

  pub record Route : Type 0 where
    pub method : Method
    pub path : String
    pub need_auth : Bool
    pub handler : Handler lvl codec json

  abbrev pub version_route : Route
  version_route = record {
    method = get;
    path = "/version";
    need_auth = false;
    handler = λ req d. (d, ok version_response);
  }

  -- `random` is what `gen_random_str` gives for the request.
  abbrev pub token_route : String → Route
  token_route random = record {
    method = get;
    path = "/token";
    need_auth = false;
    handler = λ req d. (d, ok (hdl_token json strings random req));
  }

  abbrev pub check_token_route : Route
  check_token_route = record {
    method = get;
    path = "/check_token";
    need_auth = true;
    handler = λ req d. (d, ok (ok_response json));
  }

  abbrev pub list_route : Route
  list_route = record {
    method = get;
    path = "/get_query_groups_list";
    need_auth = true;
    handler = hdl_get_query_groups_list lvl codec json;
  }

  abbrev pub set_route : Route
  set_route = record {
    method = post;
    path = "/set_query_group";
    need_auth = true;
    handler = hdl_set_query_group lvl codec json;
  }

  abbrev pub delete_route : Route
  delete_route = record {
    method = delete;
    path = "/delete_query_group";
    need_auth = true;
    handler = hdl_delete_query_group lvl codec json;
  }

  abbrev pub get_route : Route
  get_route = record {
    method = get;
    path = "/get_query_group";
    need_auth = true;
    handler = hdl_get_query_group lvl codec json;
  }

  abbrev pub hits_route : Route
  hits_route = record {
    method = get;
    path = "/get_hits";
    need_auth = true;
    handler = hdl_get_hits lvl codec json;
  }

  abbrev pub routes : String → List Route
  routes random =
      version_route
      ∷ token_route random
      ∷ check_token_route
      ∷ list_route
      ∷ set_route
      ∷ delete_route
      ∷ get_route
      ∷ hits_route
      ∷ []

  unfoldable pub handle_checked :
      Route → ApiRequest → Tables → Checked (Unit {0}) → Tables × ApiResponse
  unfolding sent access_denied
  handle_checked route req d (failed e) = (d, access_denied json e)
  handle_checked route req d (passed u) = let r = route.handler req d in (r.0, sent r.1)

  -- `handler_wrap`
  unfoldable pub handler_wrap : Route → ApiRequest → Tables → Tables × ApiResponse
  unfolding handle_checked
  handler_wrap route req d =
      if route.need_auth
      then handle_checked route req d (auth strings req.headers)
      else handle_checked route req d (passed tt)

  -- The first route of that method and path; a request without one is answered by the http library.
  unfoldable pub dispatch :
      List Route → Method → String → ApiRequest → Tables → Option (Tables × ApiResponse)
  unfolding handler_wrap same_method
  dispatch [] method path req d = none
  dispatch (r ∷ rs) method path req d =
      if same_method r.method method && str_eq r.path path
      then some (handler_wrap r req d)
      else dispatch rs method path req d

  unfoldable pub serve :
      String → Method → String → ApiRequest → Tables → Option (Tables × ApiResponse)
  unfolding dispatch
  serve random method path req d = dispatch (routes random) method path req d

  -- A request as the http library hands it over, with what `gen_random_str` gives for it.
  pub record Call : Type 0 where
    pub random : String
    pub method : Method
    pub path : String
    pub req : ApiRequest

  unfoldable pub after_call : Tables → Option (Tables × ApiResponse) → Tables
  after_call d none = d
  after_call d (some out) = out.0

  -- The tables after the requests, one after the other.
  unfoldable pub serve_all : List Call → Tables → Tables
  unfolding serve after_call
  serve_all [] d = d
  serve_all (c ∷ calls) d = serve_all calls (after_call d (serve c.random c.method c.path c.req d))
