-- ===== src/Core/QueryGroup/Json.antt =====
-- src/core/QueryGroup.cpp: groups, their dumps and their JSON texts.
use contentv.Prelude.{
  ◌≡◌, ◌↔◌, refl, sym, subst, ap, ap₂, ◌∙◌, String, List, [], ◌∷◌, ◌++◌, true, false, arith, eq_iff,
  length, map,
}
use mathlib.Core.List.{append-nil, append_assoc}
use contentv.Prelude.Result.{ok}
use contentv.Core.QueryGroup.{
  Kind, queries, hits, Group, key, GroupCodec, JsonCpp, dump, load, append_all, to_json_value,
  as_json, read_items, from_json_value, from_json, same_items, same_group,
}

module _ (json : JsonCpp) where
  open json use {
    Value, null, string, append, set, get, is_string, is_null, is_array, as_string, elements,
    get-set, is_string-string, as_string-string, is_null-null, elements-null, is_null-append,
    is_array-append, elements-append, read-write,
  }

  elements-append_all :
      (v : Value) (xs : List String) → elements (append_all json v xs) ≡ elements v ++ map string xs
  unfolding append_all
  elements-append_all v [] = sym (append-nil (elements v))
  elements-append_all v (x ∷ xs) =
      elements-append_all (append v (string x)) xs
      ∙ (ap (λ l. l ++ map string xs) (elements-append v (string x))
          ∙ append_assoc (elements v) (string x ∷ []) (map string xs))

  append_all-is_array :
      (v : Value) (xs : List String)
      → is_null v ≡ false
      → is_array v ≡ true
      → (is_null (append_all json v xs) ≡ false) × (is_array (append_all json v xs) ≡ true)
  unfolding append_all
  append_all-is_array v [] n a = (n, a)
  append_all-is_array v (x ∷ xs) n a =
      append_all-is_array (append v (string x)) xs (is_null-append v (string x))
        (is_array-append v (string x))

  read_items-map : (k : Kind) (xs : List String) → read_items json k (map string xs) ≡ ok xs
  unfolding read_items
  read_items-map k [] = refl
  read_items-map k (x ∷ xs) = rw (is_string-string x, read_items-map k xs, as_string-string x) refl

  -- What the object of a group holds under its two keys.
  get_gid : (k : Kind) (g : Group) → get "gid" (to_json_value json k g) ≡ string g.gid
  unfolding to_json_value
  get_gid queries g = get-set "queries" "gid" _ _ ∙ get-set "gid" "gid" _ _
  get_gid hits g = get-set "hits" "gid" _ _ ∙ get-set "gid" "gid" _ _

  get_key :
      (k : Kind) (g : Group) → get (key k) (to_json_value json k g) ≡ append_all json null g.items
  unfolding to_json_value
  get_key queries g = get-set "queries" "queries" _ _
  get_key hits g = get-set "hits" "hits" _ _

  from_json_value-null :
      (k : Kind) (js : Value) (gid : String)
      → get "gid" js ≡ string gid
      → is_null (get (key k) js) ≡ true
      → from_json_value json k js ≡ ok (record { gid = gid; items = [] })
  unfolding from_json_value
  from_json_value-null k js gid e n = rw (e, is_string-string gid, n, as_string-string gid) refl

  from_json_value-array :
      (k : Kind) (js : Value) (gid : String) (xs : List String)
      → get "gid" js ≡ string gid
      → is_null (get (key k) js) ≡ false
      → is_array (get (key k) js) ≡ true
      → read_items json k (elements (get (key k) js)) ≡ ok xs
      → from_json_value json k js ≡ ok (record { gid = gid; items = xs })
  unfolding from_json_value
  from_json_value-array k js gid xs e n a r =
      rw (e, is_string-string gid, n, a, r, as_string-string gid) refl

  from-to_json_value :
      (k : Kind) (gid : String) (xs : List String)
      → from_json_value json k (to_json_value json k (record { gid = gid; items = xs }))
        ≡ ok (record { gid = gid; items = xs })
  unfolding append_all
  from-to_json_value k gid [] =
      let g : Group = record { gid = gid; items = [] } in
      from_json_value-null k (to_json_value json k g) gid (get_gid k g)
        (rw (get_key k g) is_null-null)
  from-to_json_value k gid (x ∷ xs) =
      let g : Group = record { gid = gid; items = x ∷ xs } in
      let a =
        append_all-is_array (append null (string x)) xs (is_null-append null (string x))
          (is_array-append null (string x)) in
      from_json_value-array k (to_json_value json k g) gid (x ∷ xs) (get_gid k g)
        (rw (get_key k g) (a.0)) (rw (get_key k g) (a.1))
        (rw (get_key k g, elements-append_all null (x ∷ xs), elements-null)
          (read_items-map k (x ∷ xs)))

  -- A group of queries, or of hits, comes back from its JSON text as it was.
  pub from_json-as_json : (k : Kind) (g : Group) → from_json json k (as_json json k g) ≡ ok g
  unfolding from_json as_json
  from_json-as_json k g =
      rw (read-write (to_json_value json k g), from_json) (from-to_json_value k g.gid g.items)

same_items_iff : (xs ys : List String) → (same_items xs ys ≡ true) → length xs ≡ length ys → xs ≡ ys
unfolding same_items
same_items_iff [] [] h n = refl
same_items_iff [] (y ∷ ys) h n = absurd (omega (arith, n))
same_items_iff (x ∷ xs) [] h n = cc
same_items_iff (x ∷ xs) (y ∷ ys) h n =
    ap₂ ◌∷◌ ((eq_iff x y).0 (ground (arith, h)))
      (same_items_iff xs ys (ground (arith, h)) (omega (arith, n)))

same_items_refl : (xs : List String) → same_items xs xs ≡ true
unfolding same_items
same_items_refl [] = refl
same_items_refl (x ∷ xs) = ground (arith, (eq_iff x x).1 refl, same_items_refl xs)

-- `operator==` holds of two groups exactly when they are equal, and a group comes back from its dump.
same_group_iff :
    (codec : GroupCodec) (k : Kind) (a b : Group)
    → ((same_group a b ≡ true) ↔ (a ≡ b)) × (load codec k (dump codec k a) ≡ ok a)
unfolding same_group load dump
same_group_iff codec k a b = ((to_eq, of_eq), rw (codec.parse-serialize k a.gid a.items, load) refl)
  where
    to_eq : same_group a b ≡ true → a ≡ b
    to_eq h =
        let e : a.gid ≡ b.gid = (eq_iff a.gid b.gid).0 (ground (arith, h)) in
        let f : a.items ≡ b.items =
          same_items_iff a.items b.items (ground (arith, h)) (ground (arith, h)) in
        λ i. record { gid = e i; items = f i }

    of_eq : a ≡ b → same_group a b ≡ true
    of_eq e =
        subst (λ x. same_group a x ≡ true) e
          (ground (arith, (eq_iff a.gid a.gid).1 refl, same_items_refl a.items))
