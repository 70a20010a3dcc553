-- ===== src/Api/Server/Keyed.antt =====
-- src/api/v1/APIv1HdlQG.cpp: whatever is requested, the stored groups can be read, and the list of
-- them is complete.
use contentv.Prelude.{
  ◌≡◌, refl, sym, ap, subst, String, List, [], ◌∷◌, Option, none, some, Option-cases, Bool-cases,
  inl, inr, ◌⊎◌, map,
}
use contentv.Prelude.Result.{Result, ok, throws}
use contentv.Core.QueryGroup.{queries, hits, Group, GroupCodec, JsonCpp, dump, from_json}
use contentv.Ldb.Lvl.{LvlDb}
use contentv.Ldb.QueryDb.{QueryDb, Outcome, save_qg, delete_qg, delete_qg_hits, get_all_qg}
use contentv.Ldb.QueryDb.Keyed.{IsKeyed, save-TableIsKeyed, del-TableIsKeyed, load_all-keys}
use contentv.Misc.{Strings}
use contentv.Api.Parsing.{passed, Checked-cases}
use contentv.Api.Crypto.{auth}
use contentv.Api.Response.{ApiRequest, ApiResponse}
use contentv.Api.Handlers.{
  list_response, listed, set_group, set_answer, delete_answer, hdl_set_query_group,
  hdl_delete_query_group, delete_both, hdl_get_query_groups_list,
}
use contentv.Api.Server.{
  Method, get, Route, handler_wrap, handle_checked, serve, set_route, delete_route, Call,
  after_call, serve_all, routes, version_route, token_route, check_token_route, list_route,
  get_route, hits_route,
}
use contentv.Api.Server.Access.{dispatch-All, get_kept, hits_kept}
use contentv.Api.Server.Groups.{wrapped}

module _ (lvl : LvlDb) (codec : GroupCodec) (json : JsonCpp) (strings : Strings) where
  abbrev D : Type 0
  D = QueryDb lvl.Db

  abbrev Keyed : D → Type 0
  Keyed = IsKeyed lvl codec

  Result-cases : (r : Result lvl.Db) → ((d : lvl.Db) × (r ≡ ok d)) ⊎ ((m : String) × (r ≡ throws m))
  Result-cases (ok d) = inl (d, refl)
  Result-cases (throws m) = inr (m, refl)

  save_qg-IsKeyed : (g : Group) (d : D) → Keyed d → Keyed (save_qg lvl codec g d).tables
  unfolding save_qg
  save_qg-IsKeyed g d v = elim (Result-cases (lvl.save g.gid (dump codec queries g) d.qg_db)) [
    | inl (db, e) ↦
        let k : Keyed (record d { qg_db = db }) = record {
          groups = save-TableIsKeyed lvl codec queries d.qg_db db g e v.groups;
          group_hits = v.group_hits;
        } in
        rw (e, save_qg) k
    | inr (m, e) ↦ rw (e, save_qg) v
  ]

  delete_qg-IsKeyed : (gid : String) (d : D) → Keyed d → Keyed (delete_qg lvl codec gid d).tables
  unfolding delete_qg
  delete_qg-IsKeyed gid d v = elim (Result-cases (lvl.del gid d.qg_db)) [
    | inl (db, e) ↦
        let k : Keyed (record d { qg_db = db }) = record {
          groups = del-TableIsKeyed lvl codec queries d.qg_db db gid e v.groups;
          group_hits = v.group_hits;
        } in
        rw (e, delete_qg) k
    | inr (m, e) ↦ rw (e, delete_qg) v
  ]

  delete_qg_hits-IsKeyed :
      (gid : String) (d : D) → Keyed d → Keyed (delete_qg_hits lvl codec gid d).tables
  unfolding delete_qg_hits
  delete_qg_hits-IsKeyed gid d v = elim (Result-cases (lvl.del gid d.qg_hits_db)) [
    | inl (db, e) ↦
        let k : Keyed (record d { qg_hits_db = db }) = record {
          groups = v.groups;
          group_hits = del-TableIsKeyed lvl codec hits d.qg_hits_db db gid e v.group_hits;
        } in
        rw (e, delete_qg_hits) k
    | inr (m, e) ↦ rw (e, delete_qg_hits) v
  ]

  set-IsKeyed :
      (req : ApiRequest) (d : D) → Keyed d → Keyed (hdl_set_query_group lvl codec json req d).0
  unfolding hdl_set_query_group set_group
  set-IsKeyed req d v = elim (Option-cases (json.read req.body)) [
    | inl e ↦ rw (e, hdl_set_query_group) v
    | inr (js, e) ↦ rw (e, hdl_set_query_group) (from_group (from_json json queries req.body))
  ]
    where
      from_group : (r : Result Group) → Keyed (set_group lvl codec json d r).0
      from_group (throws what) = v
      from_group (ok g) = elim (Option-cases ((save_qg lvl codec g d).err_str)) [
        | inl e ↦ rw (e, set_answer) (save_qg-IsKeyed g d v)
        | inr (m, e) ↦ rw (e, set_answer) (save_qg-IsKeyed g d v)
      ]

  delete-IsKeyed :
      (req : ApiRequest) (d : D) → Keyed d → Keyed (hdl_delete_query_group lvl codec json req d).0
  unfolding hdl_delete_query_group
  delete-IsKeyed req d v = elim (Option-cases (req.params "gid")) [
    | inl e ↦ rw (e, hdl_delete_query_group) v
    | inr (gid, e) ↦ rw (e, hdl_delete_query_group) (both gid)
  ]
    where
      answer :
          (gid : String) (o : Outcome lvl.Db)
          → Keyed o.tables
          → Keyed (delete_answer lvl codec json gid o).0
      answer gid o w = elim (Option-cases o.err_str) [
        | inl e ↦ rw (e, delete_answer) w
        | inr (m, e) ↦ rw (e, delete_answer) w
      ]

      both : (gid : String) → Keyed (delete_both lvl codec json gid (delete_qg lvl codec gid d)).0
      both gid = elim (Option-cases ((delete_qg lvl codec gid d).err_str)) [
        | inl e ↦
            rw (e, delete_both)
              (answer gid (delete_qg_hits lvl codec gid (delete_qg lvl codec gid d).tables) (
                delete_qg_hits-IsKeyed gid (delete_qg lvl codec gid d).tables
                  (delete_qg-IsKeyed gid d v)))
        | inr (m, e) ↦ rw (e, delete_both) (delete_qg-IsKeyed gid d v)
      ]

  module _ (req : ApiRequest) (d : D) (v : Keyed d) where
    wrap :
        (r : Route lvl codec json strings)
        → Keyed (r.handler req d).0
        → Keyed (handler_wrap lvl codec json strings r req d).0
    unfolding handler_wrap
    wrap r h = elim (Bool-cases r.need_auth) [
      | inl n ↦ elim (Checked-cases (auth strings req.headers)) [
        | inl (u, a) ↦ rw (n, a, handle_checked) h
        | inr (m, a) ↦ rw (n, a, handle_checked) v
      ]
      | inr n ↦ rw (n, handle_checked) h
    ]

    serve-IsKeyed :
        (random : String) (method : Method) (path : String) (out : D × ApiResponse)
        → serve lvl codec json strings random method path req d ≡ some out
        → Keyed out.0
    unfolding serve hdl_get_query_groups_list
    serve-IsKeyed random method path out e =
        dispatch-All lvl codec json strings req d (λ o. Keyed o.0)
          (routes lvl codec json strings random) method path out
          (
            λ m p. wrap (version_route lvl codec json strings) v,
            (
              λ m p. wrap (token_route lvl codec json strings random) v,
              (
                λ m p. wrap (check_token_route lvl codec json strings) v,
                (
                  λ m p. wrap (list_route lvl codec json strings) v,
                  (
                    λ m p. wrap (set_route lvl codec json strings) (set-IsKeyed req d v),
                    (
                      λ m p. wrap (delete_route lvl codec json strings) (delete-IsKeyed req d v),
                      (
                        λ m p.
                            wrap (get_route lvl codec json strings)
                              (subst Keyed (sym (get_kept lvl codec json strings req d)) v),
                        (
                          λ m p.
                              wrap (hits_route lvl codec json strings)
                                (subst Keyed (sym (hits_kept lvl codec json strings req d)) v),
                          tt,
                        ),
                      ),
                    ),
                  ),
                ),
              ),
            ),
          )
          e

  serve_all-IsKeyed :
      (calls : List (Call lvl codec json strings)) (d : D)
      → Keyed d
      → Keyed (serve_all lvl codec json strings calls d)
  unfolding serve_all
  serve_all-IsKeyed [] d v = v
  serve_all-IsKeyed (c ∷ calls) d v =
      serve_all-IsKeyed calls _
        (after (serve lvl codec json strings c.random c.method c.path c.req d) refl)
    where
      after :
          (o : Option (D × ApiResponse))
          → serve lvl codec json strings c.random c.method c.path c.req d ≡ o
          → Keyed (after_call lvl codec json strings d o)
      after none e = v
      after (some out) e = serve-IsKeyed c.req d v c.random c.method c.path out e

  -- After any requests on tables whose groups could be read, a GET of `/get_query_groups_list` with an
  -- accepted token is answered by 200 with the number and the ids of exactly the groups that are
  -- stored.
  pub serve_all-list :
      (calls : List (Call lvl codec json strings)) (d : D) (random : String) (req : ApiRequest)
      → Keyed d
      → auth strings req.headers ≡ passed tt
      → let d' = serve_all lvl codec json strings calls d in
        (gs : List Group) × (serve lvl codec json strings random get "/get_query_groups_list" req d'
          ≡ some (d', list_response json gs))
        × (map (λ (g : Group). g.gid) gs
            ≡ map (λ (e : String × String). e.0) (lvl.scan_full d'.qg_db))
  unfolding serve hdl_get_query_groups_list get_all_qg
  serve_all-list calls d random req v a =
      let d' = serve_all lvl codec json strings calls d in
      let k = serve_all-IsKeyed calls d v in
      let all = load_all-keys codec queries (lvl.scan_full d'.qg_db) k.groups in
      (
        all.0,
        ap some (
            wrapped lvl codec json strings (list_route lvl codec json strings) req d' d'
              (ok (list_response json all.0)) a (ap (λ r. (d', listed json r)) (all.1))),
        all.2,
      )
