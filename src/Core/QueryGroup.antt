-- ===== src/Core/QueryGroup.antt =====
-- src/core/QueryGroup.h and .cpp: a group of queries, and the urls that its queries hit. The classes
-- `QueryGroup` and `QueryGroupHits` have the same code but for the name of their list.
pub mod Json
pub mod Sorted
use contentv.Prelude.{
  ℕ, String, List, [], ◌∷◌, ◌++◌, ◌≡◌, Option, none, some, Bool, true, false, not, ◌&&◌, ◌==◌,
  str_eq, length, if◌then◌else◌,
}
use contentv.Prelude.Result.{Result, ok, throws, ◌>>=◌}

-- Which of the two classes it is.
pub data Kind : Type 0 where
  queries hits : Kind

-- `items` is `queries` or `hits`.
pub record Group : Type 0 where
  pub gid : String
  pub items : List String

abbrev pub key : Kind → String
key queries = "queries"
key hits = "hits"

abbrev pub json_error : Kind → String
json_error queries = "QueryGroup::fromJson parsing error"
json_error hits = "QueryGroupHits::fromJson parsing error"

abbrev pub dump_error : Kind → String
dump_error queries = "QueryGroup::QueryGroup parsing"
dump_error hits = "QueryGroupHitsPb::QueryGroupHitsPb parsing"

-- The protobuf messages of both classes: a serialised message parses to itself.
pub record GroupCodec : Type 0 where
  pub serialize : Kind → String → List String → String
  pub parse : Kind → String → Option (String × List String)
  pub parse-serialize :
      (k : Kind) (gid : String) (items : List String)
      → parse k (serialize k gid items) ≡ some (gid, items)

-- The part of JsonCpp that the code uses. `append` to the null value makes an array of one element.
pub record JsonCpp : Type 1 where
  pub Value : Type 0
  pub null : Value
  pub string : String → Value
  pub number : ℕ → Value
  pub append : Value → Value → Value
  -- `v[key] = w`, and `v[key]`
  pub set : String → Value → Value → Value
  pub get : String → Value → Value
  pub is_string : Value → Bool
  pub is_null : Value → Bool
  pub is_array : Value → Bool
  pub as_string : Value → String
  -- the elements `v[0]` to `v[v.size() - 1]`
  pub elements : Value → List Value
  -- `FastWriter::write` and `Reader::parse`
  pub write : Value → String
  pub read : String → Option Value
  pub get-set :
      (k j : String) (w v : Value) → get j (set k w v) ≡ (if str_eq k j then w else get j v)
  pub is_string-string : (s : String) → is_string (string s) ≡ true
  pub as_string-string : (s : String) → as_string (string s) ≡ s
  pub is_null-null : is_null null ≡ true
  pub elements-null : elements null ≡ []
  pub is_null-append : (v w : Value) → is_null (append v w) ≡ false
  pub is_array-append : (v w : Value) → is_array (append v w) ≡ true
  pub elements-append : (v w : Value) → elements (append v w) ≡ elements v ++ w ∷ []
  pub read-write : (v : Value) → read (write v) ≡ some v

module _ (codec : GroupCodec) where
  unfoldable pub dump : Kind → Group → String
  dump k g = codec.serialize k g.gid g.items

  unfoldable pub load : Kind → String → Result Group
  load k text = elim (codec.parse k text) [
    | none ↦ throws (dump_error k)
    | some pb ↦ ok (record { gid = pb.0; items = pb.1 })
  ]

module _ (json : JsonCpp) where
  open json use {
    Value, null, string, append, set, get, is_string, is_null, is_array, as_string, elements, write,
    read,
  }

  unfoldable pub append_all : Value → List String → Value
  append_all v [] = v
  append_all v (x ∷ xs) = append_all (append v (string x)) xs

  unfoldable pub to_json_value : Kind → Group → Value
  unfolding append_all
  to_json_value k g = set (key k) (append_all null g.items) (set "gid" (string g.gid) null)

  unfoldable pub as_json : Kind → Group → String
  unfolding to_json_value
  as_json k g = write (to_json_value k g)

  unfoldable pub read_items : Kind → List Value → Result (List String)
  read_items k [] = ok []
  read_items k (v ∷ vs) =
      if is_string v
      then (do rest ← read_items k vs; ok (as_string v ∷ rest))
      else throws (json_error k)

  unfoldable pub from_json_value : Kind → Value → Result Group
  unfolding read_items
  from_json_value k js =
      if not (is_string (get "gid" js))
      then throws (json_error k)
      else if is_null (get (key k) js)
      then ok (record { gid = as_string (get "gid" js); items = [] })
      else if not (is_array (get (key k) js))
      then throws (json_error k)
      else (do
        items ← read_items k (elements (get (key k) js))
        ok (record { gid = as_string (get "gid" js); items = items }))

  unfoldable pub from_json : Kind → String → Result Group
  unfolding from_json_value
  from_json k text = elim (read text) [
    | none ↦ throws (json_error k)
    | some js ↦ from_json_value k js
  ]

-- The loop of `operator==` over lists of the same length.
unfoldable pub same_items : List String → List String → Bool
same_items [] ys = true
same_items (x ∷ xs) [] = false
same_items (x ∷ xs) (y ∷ ys) = str_eq x y && same_items xs ys

unfoldable pub same_group : Group → Group → Bool
unfolding same_items
same_group a b =
    if not (str_eq a.gid b.gid)
    then false
    else if not (length a.items == length b.items)
    then false
    else same_items a.items b.items

-- The methods of `QueryGroupHits`, whose code is a copy.
module _ (codec : GroupCodec) where
  abbrev hits_dump : Group → String
  hits_dump = dump codec hits

  abbrev hits_load : String → Result Group
  hits_load = load codec hits

module _ (json : JsonCpp) where
  open json use {Value}

  abbrev hits_to_json_value : Group → Value
  hits_to_json_value = to_json_value json hits

  abbrev hits_from_json : String → Result Group
  hits_from_json = from_json json hits

  abbrev hits_from_json_value : Value → Result Group
  hits_from_json_value = from_json_value json hits

abbrev same_hits : Group → Group → Bool
same_hits = same_group
