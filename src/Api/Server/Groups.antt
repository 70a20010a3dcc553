-- ===== src/Api/Server/Groups.antt =====
-- src/api/v1/APIv1HdlQG.cpp and APIv1HdlHits.cpp: the groups behave as a map from ids to groups.
use text.Mathlib.TextPositions.{eq_refl}
use contentv.Prelude.{
  ◌≡◌, refl, ap, ◌∙◌, String, none, some, str_eq, Bool-cases, inl, inr, if◌then◌else◌,
}
use contentv.Prelude.Text.{◌<>◌}
use contentv.Prelude.Result.{Result, ok, throws}
use contentv.Core.QueryGroup.{Kind, queries, hits, Group, GroupCodec, JsonCpp, dump, load, as_json}
use contentv.Core.QueryGroup.Json.{from_json-as_json}
use contentv.Ldb.Lvl.{LvlDb}
use contentv.Ldb.QueryDb.{
  QueryDb, load_found, load_qg, load_qg_hits, save_qg, delete_qg, delete_qg_hits,
}
use contentv.Misc.{Strings}
use contentv.Api.Parsing.{passed}
use contentv.Api.Crypto.{auth}
use contentv.Api.Response.{ApiRequest, ApiResponse, ok_response, bad_request, internal_error}
use contentv.Api.Handlers.{
  found_group, found_hits, hdl_set_query_group, hdl_get_query_group, hdl_delete_query_group,
  hdl_get_hits,
}
use contentv.Api.Server.{
  get, post, delete, Route, handler_wrap, handle_checked, sent, serve, set_route, get_route,
  delete_route, hits_route,
}

module _ (lvl : LvlDb) (codec : GroupCodec) (json : JsonCpp) (strings : Strings) where
  abbrev D : Type 0
  D = QueryDb lvl.Db

  -- A handler behind an accepted token.
  pub wrapped :
      (r : Route lvl codec json strings) (req : ApiRequest) (d d' : D) (res : Result ApiResponse)
      → auth strings req.headers ≡ passed tt
      → r.handler req d ≡ (d', res)
      → handler_wrap lvl codec json strings r req d ≡ (d', sent res)
  unfolding handler_wrap
  wrapped r req d d' res a h = elim (Bool-cases r.need_auth) [
    | inl n ↦ rw (n, a, handle_checked) (ap (λ o. (o.0, sent o.1)) h)
    | inr n ↦ rw (n, handle_checked) (ap (λ o. (o.0, sent o.1)) h)
  ]

  load_found-dump :
      (k : Kind) (g : Group) → load_found codec k (some (dump codec k g)) ≡ ok (some g)
  unfolding load_found dump load
  load_found-dump k g = rw (codec.parse-serialize k g.gid g.items, load) refl

  set_query_group_of :
      (req : ApiRequest) (d : D) (g : Group) (db : lvl.Db)
      → req.body ≡ as_json json queries g
      → lvl.save g.gid (dump codec queries g) d.qg_db ≡ ok db
      → hdl_set_query_group lvl codec json req d ≡ (record d { qg_db = db }, ok (ok_response json))
  unfolding hdl_set_query_group save_qg as_json
  set_query_group_of req d g db b s =
      ap (λ t. hdl_set_query_group lvl codec json (record req { body = t }) d) b
      ∙ rw (json.read-write, from_json-as_json json queries g, s, hdl_set_query_group) refl

  load_qg-saved :
      (d : D) (g : Group) (db : lvl.Db) (j : String)
      → lvl.save g.gid (dump codec queries g) d.qg_db ≡ ok db
      → load_qg lvl codec j (record d { qg_db = db })
        ≡ (if str_eq g.gid j then ok (some g) else load_qg lvl codec j d)
  unfolding load_qg
  load_qg-saved d g db j s = elim (Bool-cases (str_eq g.gid j)) [
    | inl e ↦
        rw (lvl.load-save g.gid j (dump codec queries g) d.qg_db db s, e)
          (load_found-dump queries g)
    | inr e ↦ rw (lvl.load-save g.gid j (dump codec queries g) d.qg_db db s, e) refl
  ]

  get_query_group_of :
      (req : ApiRequest) (d : D) (j : String)
      → req.params "gid" ≡ some j
      → hdl_get_query_group lvl codec json req d ≡ (d, found_group json (load_qg lvl codec j d))
  unfolding hdl_get_query_group
  get_query_group_of req d j p = rw (p, hdl_get_query_group) refl

  -- A POST of `/set_query_group` with the JSON of a group stores it, when the token is accepted and
  -- the table can be written: a GET of `/get_query_group` answers afterwards with that group for its
  -- id, and with what it answered before for every other id.
  pub serve-set-get :
      (random random' : String) (req req' : ApiRequest) (d : D) (g : Group) (db : lvl.Db)
      (j : String)
      → auth strings req.headers ≡ passed tt
      → req.body ≡ as_json json queries g
      → lvl.save g.gid (dump codec queries g) d.qg_db ≡ ok db
      → auth strings req'.headers ≡ passed tt
      → req'.params "gid" ≡ some j
      → let d' : D = record d { qg_db = db } in
        (serve lvl codec json strings random post "/set_query_group" req d
          ≡ some (d', ok_response json))
        × (serve lvl codec json strings random' get "/get_query_group" req' d'
            ≡ some (
              d',
              sent (
                  found_group json (if str_eq g.gid j then ok (some g) else load_qg lvl codec j d)),
            ))
  unfolding serve
  serve-set-get random random' req req' d g db j a b s a' p =
      let d' : D = record d { qg_db = db } in
      (
        ap some (
            wrapped (set_route lvl codec json strings) req d d' (ok (ok_response json)) a
              (set_query_group_of req d g db b s)),
        ap some (
            wrapped (get_route lvl codec json strings) req' d' d' _ a' (
              get_query_group_of req' d' j p
              ∙ ap (λ r. (d', found_group json r)) (load_qg-saved d g db j s))),
      )

  delete_qg_of :
      (d : D) (gid : String) (db : lvl.Db)
      → lvl.del gid d.qg_db ≡ ok db
      → delete_qg lvl codec gid d ≡ record { tables = record d { qg_db = db }; err_str = none }
  unfolding delete_qg
  delete_qg_of d gid db s = rw (s, delete_qg) refl

  delete_query_group_of :
      (req : ApiRequest) (d : D) (gid : String) (db hits_db : lvl.Db)
      → req.params "gid" ≡ some gid
      → lvl.del gid d.qg_db ≡ ok db
      → lvl.del gid d.qg_hits_db ≡ ok hits_db
      → hdl_delete_query_group lvl codec json req d
        ≡ (record { qg_db = db; qg_hits_db = hits_db }, ok (ok_response json))
  unfolding hdl_delete_query_group delete_qg_hits
  delete_query_group_of req d gid db hits_db p s t =
      rw (p, hdl_delete_query_group) (rw (delete_qg_of d gid db s) (rw (t, delete_qg_hits) refl))

  load_found-del :
      (k : Kind) (gid j : String) (d d' : lvl.Db)
      → lvl.del gid d ≡ ok d'
      → load_found codec k (lvl.load j d')
        ≡ (if str_eq gid j then ok none else load_found codec k (lvl.load j d))
  unfolding load_found
  load_found-del k gid j d d' s = elim (Bool-cases (str_eq gid j)) [
    | inl e ↦ rw (lvl.load-del gid j d d' s, e) refl
    | inr e ↦ rw (lvl.load-del gid j d d' s, e) refl
  ]

  get_hits_of :
      (req : ApiRequest) (d : D) (j : String)
      → req.params "gid" ≡ some j
      → hdl_get_hits lvl codec json req d ≡ (d, found_hits json (load_qg_hits lvl codec j d))
  unfolding hdl_get_hits
  get_hits_of req d j p = rw (p, hdl_get_hits) refl

  -- A DELETE of `/delete_query_group` forgets the group and its hits, when the token is accepted and
  -- both tables can be written: afterwards its id is answered "not exist" and has no hits, and every
  -- other id is answered as before.
  pub serve-delete-get :
      (random random' : String) (req req' : ApiRequest) (d : D) (gid j : String)
      (db hits_db : lvl.Db)
      → auth strings req.headers ≡ passed tt
      → req.params "gid" ≡ some gid
      → lvl.del gid d.qg_db ≡ ok db
      → lvl.del gid d.qg_hits_db ≡ ok hits_db
      → auth strings req'.headers ≡ passed tt
      → req'.params "gid" ≡ some j
      → let d' : D = record { qg_db = db; qg_hits_db = hits_db } in
        (serve lvl codec json strings random delete "/delete_query_group" req d
          ≡ some (d', ok_response json))
        × (serve lvl codec json strings random' get "/get_query_group" req' d'
            ≡ some (
              d',
              sent (found_group json (if str_eq gid j then ok none else load_qg lvl codec j d)),
            ))
        × (serve lvl codec json strings random' get "/get_hits" req' d'
            ≡ some (
              d',
              sent (found_hits json (if str_eq gid j then ok none else load_qg_hits lvl codec j d)),
            ))
  unfolding serve load_qg load_qg_hits
  serve-delete-get random random' req req' d gid j db hits_db a p s t a' p' =
      let d' : D = record { qg_db = db; qg_hits_db = hits_db } in
      (
        ap some (
            wrapped (delete_route lvl codec json strings) req d d' (ok (ok_response json)) a
              (delete_query_group_of req d gid db hits_db p s t)),
        ap some (
            wrapped (get_route lvl codec json strings) req' d' d' _ a' (
              get_query_group_of req' d' j p'
              ∙ ap (λ r. (d', found_group json r)) (load_found-del queries gid j d.qg_db db s))),
        ap some (
            wrapped (hits_route lvl codec json strings) req' d' d' _ a' (
              get_hits_of req' d' j p'
              ∙ ap (λ r. (d', found_hits json r))
                  (load_found-del hits gid j d.qg_hits_db hits_db t))),
      )

  -- When the table of the groups can be written and the table of the hits cannot, a DELETE is
  -- answered by 400 although the group is gone, and the hits stay.
  pub serve-delete_half :
      (random : String) (req : ApiRequest) (d : D) (gid what : String) (db : lvl.Db)
      → auth strings req.headers ≡ passed tt
      → req.params "gid" ≡ some gid
      → lvl.del gid d.qg_db ≡ ok db
      → lvl.del gid d.qg_hits_db ≡ throws what
      → let d' : D = record d { qg_db = db } in
        (serve lvl codec json strings random delete "/delete_query_group" req d
          ≡ some (d', bad_request json ("err: deleting gid:" <> gid)))
        × (load_qg lvl codec gid d' ≡ ok none)
        × (load_qg_hits lvl codec gid d' ≡ load_qg_hits lvl codec gid d)
  unfolding serve load_qg load_qg_hits hdl_delete_query_group delete_qg_hits
  serve-delete_half random req d gid what db a p s t = (
    ap some (
        wrapped (delete_route lvl codec json strings) req d (record d { qg_db = db })
          (ok (bad_request json ("err: deleting gid:" <> gid))) a
          (rw (p, hdl_delete_query_group)
            (rw (delete_qg_of d gid db s) (rw (t, delete_qg_hits) refl)))),
    load_found-del queries gid gid d.qg_db db s ∙ rw (eq_refl gid) refl,
    refl,
  )

  -- A POST of `/set_query_group` with the JSON of a group that cannot be written is answered by 500
  -- and changes nothing.
  serve-set_error :
      (random : String) (req : ApiRequest) (d : D) (g : Group) (what : String)
      → auth strings req.headers ≡ passed tt
      → req.body ≡ as_json json queries g
      → lvl.save g.gid (dump codec queries g) d.qg_db ≡ throws what
      → serve lvl codec json strings random post "/set_query_group" req d
        ≡ some (d, internal_error json ("err: set gid:" <> g.gid))
  unfolding serve hdl_set_query_group save_qg as_json
  serve-set_error random req d g what a b s = ap some (
      wrapped (set_route lvl codec json strings) req d d
        (ok (internal_error json ("err: set gid:" <> g.gid))) a
        (ap (λ t. hdl_set_query_group lvl codec json (record req { body = t }) d) b
          ∙ rw (json.read-write, from_json-as_json json queries g, s, hdl_set_query_group) refl))
