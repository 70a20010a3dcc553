-- ===== src/Api/Server/Access.antt =====
-- src/api/v1/APIv1.cpp: what a request without a valid token can do, and which requests write.
use contentv.Prelude.{
  ◌≡◌, refl, sym, subst, String, List, [], ◌∷◌, some, true, str_eq, eq_iff, Bool-cases,
  Option-cases, ◌⊎◌, inl, inr, All,
}
use contentv.Core.QueryGroup.{GroupCodec, JsonCpp}
use contentv.Ldb.Lvl.{LvlDb}
use contentv.Ldb.QueryDb.{QueryDb}
use contentv.Misc.{Strings}
use contentv.Api.Parsing.{passed, failed, Checked-cases}
use contentv.Api.Crypto.{auth}
use contentv.Api.Response.{ApiRequest, ApiResponse, access_denied}
use contentv.Api.Handlers.{hdl_get_query_groups_list, hdl_get_query_group, hdl_get_hits}
use contentv.Api.Server.{
  Method, get, post, delete, same_method, Route, routes, version_route, token_route,
  check_token_route, list_route, set_route, delete_route, get_route, hits_route, handler_wrap,
  handle_checked, dispatch, serve,
}

same_method-eq : (m n : Method) → same_method m n ≡ true → m ≡ n
unfolding same_method
same_method-eq get get h = refl
same_method-eq post post h = refl
same_method-eq delete delete h = refl
same_method-eq get post h = cc
same_method-eq get delete h = cc
same_method-eq post get h = cc
same_method-eq post delete h = cc
same_method-eq delete get h = cc
same_method-eq delete post h = cc

module _ (lvl : LvlDb) (codec : GroupCodec) (json : JsonCpp) (strings : Strings) (req : ApiRequest)
    (d : QueryDb lvl.Db) where
  abbrev Out : Type 0
  Out = QueryDb lvl.Db × ApiResponse

  abbrev R : Type 0
  R = Route lvl codec json strings

  -- What holds of the answer of each route of that method and path holds of the answer.
  pub dispatch-All :
      (C : Out → Type 0) (rs : List R) (method : Method) (path : String) (out : Out)
      → All
          (λ (r : R).
            r.method ≡ method → r.path ≡ path → C (handler_wrap lvl codec json strings r req d))
          rs
      → dispatch lvl codec json strings rs method path req d ≡ some out
      → C out
  unfolding dispatch
  dispatch-All C [] method path out a e = cc
  dispatch-All C (r ∷ rs) method path out a e = elim (Bool-cases (same_method r.method method)) [
    | inl m ↦ elim (Bool-cases (str_eq r.path path)) [
      | inl p ↦
          subst C (some_inj (rw (m, p) at e))
            (a.0 (same_method-eq r.method method m) ((eq_iff r.path path).0 p))
      | inr p ↦ dispatch-All C rs method path out a.1 (rw (m, p) at e)
    ]
    | inr m ↦ dispatch-All C rs method path out a.1 (rw m at e)
  ]
    where
      some_inj : {x y : Out} → some x ≡ some y → x ≡ y
      some_inj e = cc

  -- What a request without a valid token is answered.
  abbrev pub IsRefused : String → String → Out → Type 0
  IsRefused path error out =
      (out.0 ≡ d) × ((path ≡ "/version") ⊎ (path ≡ "/token") ⊎ (out.1 ≡ access_denied json error))

  refused :
      (r : R) (path error : String)
      → auth strings req.headers ≡ failed error
      → r.need_auth ≡ true
      → IsRefused path error (handler_wrap lvl codec json strings r req d)
  unfolding handler_wrap
  refused r path error f n = rw (n, f, handle_checked) (refl, inr (inr refl))

  -- A request that `_auth` does not accept changes nothing, and every path but `/version` and
  -- `/token` that has a route answers it by 403 with the reason.
  pub serve-IsRefused :
      (random : String) (method : Method) (path error : String) (out : Out)
      → auth strings req.headers ≡ failed error
      → serve lvl codec json strings random method path req d ≡ some out
      → IsRefused path error out
  unfolding serve
  serve-IsRefused random method path error out f e =
      dispatch-All (IsRefused path error) (routes lvl codec json strings random) method path out
        (
          λ m p. (refl, inl (sym p)),
          (
            λ m p. (refl, inr (inl (sym p))),
            (
              λ m p. refused (check_token_route lvl codec json strings) path error f refl,
              (
                λ m p. refused (list_route lvl codec json strings) path error f refl,
                (
                  λ m p. refused (set_route lvl codec json strings) path error f refl,
                  (
                    λ m p. refused (delete_route lvl codec json strings) path error f refl,
                    (
                      λ m p. refused (get_route lvl codec json strings) path error f refl,
                      (λ m p. refused (hits_route lvl codec json strings) path error f refl, tt),
                    ),
                  ),
                ),
              ),
            ),
          ),
        )
        e

  -- The methods and paths that write.
  abbrev pub IsWrite : Method → String → Type 0
  IsWrite method path =
      ((method ≡ post) × (path ≡ "/set_query_group"))
      ⊎ ((method ≡ delete) × (path ≡ "/delete_query_group"))

  kept : (r : R) → (r.handler req d).0 ≡ d → (handler_wrap lvl codec json strings r req d).0 ≡ d
  unfolding handler_wrap
  kept r h = elim (Bool-cases r.need_auth) [
    | inl n ↦ elim (Checked-cases (auth strings req.headers)) [
      | inl (u, a) ↦ rw (n, a, handle_checked) h
      | inr (m, a) ↦ rw (n, a, handle_checked) refl
    ]
    | inr n ↦ rw (n, handle_checked) h
  ]

  written :
      (r : R) (method : Method) (path : String)
      → r.need_auth ≡ true
      → IsWrite method path
      → ((handler_wrap lvl codec json strings r req d).0 ≡ d)
        ⊎ ((auth strings req.headers ≡ passed tt) × IsWrite method path)
  unfolding handler_wrap
  written r method path n w = elim (Checked-cases (auth strings req.headers)) [
    | inl (u, a) ↦ inr (a, w)
    | inr (m, a) ↦ inl (rw (n, a, handle_checked) refl)
  ]

  pub get_kept : (hdl_get_query_group lvl codec json req d).0 ≡ d
  unfolding hdl_get_query_group
  get_kept = elim (Option-cases (req.params "gid")) [
    | inl e ↦ rw (e, hdl_get_query_group) refl
    | inr (gid, e) ↦ rw (e, hdl_get_query_group) refl
  ]

  pub hits_kept : (hdl_get_hits lvl codec json req d).0 ≡ d
  unfolding hdl_get_hits
  hits_kept = elim (Option-cases (req.params "gid")) [
    | inl e ↦ rw (e, hdl_get_hits) refl
    | inr (gid, e) ↦ rw (e, hdl_get_hits) refl
  ]

  -- A request changes the tables only if its token is accepted, and if it is a POST of
  -- `/set_query_group` or a DELETE of `/delete_query_group`.
  pub serve-writes :
      (random : String) (method : Method) (path : String) (out : Out)
      → serve lvl codec json strings random method path req d ≡ some out
      → (out.0 ≡ d) ⊎ ((auth strings req.headers ≡ passed tt) × IsWrite method path)
  unfolding serve hdl_get_query_groups_list
  serve-writes random method path out e =
      dispatch-All (λ o. (o.0 ≡ d) ⊎ ((auth strings req.headers ≡ passed tt) × IsWrite method path))
        (routes lvl codec json strings random) method path out
        (
          λ m p. inl (kept (version_route lvl codec json strings) refl),
          (
            λ m p. inl (kept (token_route lvl codec json strings random) refl),
            (
              λ m p. inl (kept (check_token_route lvl codec json strings) refl),
              (
                λ m p. inl (kept (list_route lvl codec json strings) refl),
                (
                  λ m p.
                      written (set_route lvl codec json strings) method path refl
                        (inl (sym m, sym p)),
                  (
                    λ m p.
                        written (delete_route lvl codec json strings) method path refl
                          (inr (sym m, sym p)),
                    (
                      λ m p. inl (kept (get_route lvl codec json strings) get_kept),
                      (λ m p. inl (kept (hits_route lvl codec json strings) hits_kept), tt),
                    ),
                  ),
                ),
              ),
            ),
          ),
        )
        e
