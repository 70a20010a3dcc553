-- ===== src/Api/Server/Issue.antt =====
-- src/api/v1/APIv1HdlToken.cpp and APIv1Crypto.cpp: a token for the right keys is accepted.
use contentv.Prelude.{
  ◌-◌, ◌≤◌, ◌≡◌, refl, ap, subst, ◌∙◌, String, [], ◌∷◌, some, false, ltb, str_eq, eq_iff, arith,
  inl, inr, Bool-cases,
}
use contentv.Prelude.Text.{
  size, take_chars, drop_chars, ◌<>◌, size-append, drop_chars-append, take-append-drop_chars,
  size-drop_chars,
}
use contentv.Core.QueryGroup.{GroupCodec, JsonCpp}
use contentv.Ldb.Lvl.{LvlDb}
use contentv.Ldb.QueryDb.{QueryDb}
use contentv.Prelude.Dict.{find}
use contentv.Misc.{Strings, HasNoColon}
use contentv.Api.Parsing.{Found, passed, parse_api_keys, two_tokens}
use contentv.Api.Crypto.{pepper, token_expires_in, hash, signature, token_body, gen_token, auth}
use contentv.Api.Crypto.Tokens.{IsSigned, auth_iff}
use contentv.Api.Response.{ApiRequest, ok_response}
use contentv.Api.Handlers.{token_response, token_of_keys, hdl_token}
use contentv.Api.Server.{get, serve, handle_checked}

not_empty : (s : String) → 1 ≤ size s → str_eq s "" ≡ false
not_empty s h = elim (Bool-cases (str_eq s "")) [
  | inl e ↦ absurd (omega (arith, ap size ((eq_iff s "").0 e), h))
  | inr e ↦ e
]

module _ (strings : Strings) where
  open strings use {
    base64_encode, base64_decode, last_n, split, std_hash, decode-encode, size-base64_encode-le,
    last_n-append, split-append,
  }

  -- The token for the keys that the constructor of `APIv1` sets.
  abbrev pub issued : String → String
  issued random = let body = token_body strings "_API_KEY_" random in body <> signature strings body

  -- The last five of at least five characters.
  size-last_n : (s : String) → 5 ≤ size s → size (last_n s 5) ≡ 5
  size-last_n s h =
      let whole : take_chars (size s - 5) s <> drop_chars (size s - 5) s ≡ s =
        take-append-drop_chars (size s - 5) s in
      let five : size (drop_chars (size s - 5) s) ≡ 5 =
        omega (arith, size-drop_chars (size s - 5) s, h) in
      let last : last_n s 5 ≡ drop_chars (size s - 5) s =
        subst (λ t. last_n t 5 ≡ drop_chars (size s - 5) s) whole
          (subst
            (λ n.
              last_n (take_chars (size s - 5) s <> drop_chars (size s - 5) s) n
              ≡ drop_chars (size s - 5) s)
            five (last_n-append (take_chars (size s - 5) s) (drop_chars (size s - 5) s))) in
      ap size last ∙ five

  parse_api_keys_of :
      (headers : Found) (key secret : String)
      → HasNoColon key
      → HasNoColon secret
      → 1 ≤ size key
      → 1 ≤ size secret
      → headers "Authorization" ≡ some ("Basic " <> base64_encode (key <> ":" <> secret))
      → parse_api_keys strings headers ≡ passed (key, secret)
  unfolding parse_api_keys
  parse_api_keys_of headers key secret k s kn sn h =
      let text = key <> ":" <> secret in
      let cut : drop_chars 6 ("Basic " <> base64_encode text) ≡ base64_encode text =
        drop_chars-append "Basic " (base64_encode text) in
      let long : ltb (size ("Basic " <> base64_encode text)) 9 ≡ false = ground (
        arith,
        size-append "Basic " (base64_encode text),
        size-base64_encode-le text,
        size-append key (":" <> secret),
        size-append ":" secret,
      ) in
      rw (h, parse_api_keys)
        (rw (long, cut, decode-encode text, split-append key secret k s) (filled key secret kn sn))
    where
      filled :
          (key secret : String)
          → 1 ≤ size key
          → 1 ≤ size secret
          → two_tokens (key ∷ secret ∷ []) ≡ passed (key, secret)
      filled key secret kn sn = rw (not_empty key kn, not_empty secret sn) refl

  IsSigned-issued :
      (random : String)
      → size random ≡ 6
      → 5 ≤ size (std_hash (token_body strings "_API_KEY_" random <> pepper))
      → IsSigned strings (issued random)
  unfolding hash
  IsSigned-issued random six long =
      let body = token_body strings "_API_KEY_" random in
      let key : size (last_n (base64_encode "_API_KEY_") 5) ≡ 5 =
        size-last_n (base64_encode "_API_KEY_")
          (omega (arith, size-base64_encode-le "_API_KEY_")) in
      (
        body,
        signature strings body,
        refl,
        omega (arith, size-append (last_n (base64_encode "_API_KEY_") 5) random, key, six),
        size-last_n (hash strings (body <> pepper))
            (omega (arith, size-base64_encode-le (std_hash (body <> pepper)), long)),
        refl,
      )

module _ (lvl : LvlDb) (codec : GroupCodec) (json : JsonCpp) (strings : Strings) where
  open strings use {base64_encode, std_hash}

  -- A client with the right keys gets a token, with `token_expires_in` beside it in the answer, and a
  -- later request with that token behind `Bearer ` is accepted, when the random characters are six and the number that
  -- `std::hash` gives for the token has at least five digits.
  pub serve-issued :
      (random random' : String) (req req' : ApiRequest) (d d' : QueryDb lvl.Db)
      → size random ≡ 6
      → 5 ≤ size (std_hash (token_body strings "_API_KEY_" random <> pepper))
      → req.headers "Authorization"
        ≡ some ("Basic " <> base64_encode ("_API_KEY_" <> ":" <> "_API_SECRET_KEY_"))
      → req'.headers "Authorization" ≡ some ("Bearer " <> issued strings random)
      → (serve lvl codec json strings random get "/token" req d
          ≡ some (d, token_response json (issued strings random, token_expires_in)))
        × (serve lvl codec json strings random' get "/check_token" req' d'
            ≡ some (d', ok_response json))
  unfolding serve hdl_token gen_token find
  serve-issued random random' req req' d d' six long h h' =
      let keys : parse_api_keys strings req.headers ≡ passed ("_API_KEY_", "_API_SECRET_KEY_") =
        parse_api_keys_of strings req.headers "_API_KEY_" "_API_SECRET_KEY_" (omega arith)
          (omega arith) (omega arith) (omega arith) h in
      let accepted : auth strings req'.headers ≡ passed tt =
        (auth_iff strings req'.headers).1
          ("Bearer ", issued strings random, h', refl, IsSigned-issued strings random six long) in
      (
        ap (λ c. some (d, token_of_keys json strings random c)) keys,
        rw (accepted, handle_checked) refl,
      )
