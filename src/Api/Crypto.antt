-- ===== src/Api/Crypto.antt =====
-- src/api/v1/APIv1Crypto.cpp: a token is a part of the key, six random characters and a signature of
-- both.

pub mod Tokens
use contentv.Prelude.{
  ℕ, ◌*◌, String, [], ◌∷◌, Option, none, some, Bool, false, not, ◌==◌, str_eq, if◌then◌else◌,
}
use contentv.Prelude.Text.{size, take_chars, ◌<>◌}
use contentv.Prelude.Dict.{Dict, find, insert}
use contentv.Misc.{Strings}
use contentv.Api.Parsing.{Found, Checked, passed, failed, token_size, parse_bearer}

abbrev pub pepper : String
pepper = "crypto_pepper_string_06.08.24"

-- A year, in seconds.
abbrev pub token_expires_in : ℕ
token_expires_in = 3600 * 24 * 365

-- The keys that the constructor of `APIv1` sets.
abbrev pub api_keys : Dict String
api_keys = ("_API_KEY_", "_API_SECRET_KEY_") ∷ []

module _ (strings : Strings) where
  open strings use {base64_encode, last_n, std_hash}

  unfoldable pub hash : String → String
  hash s = base64_encode (std_hash s)

  abbrev pub signature : String → String
  signature token_body = last_n (hash (token_body <> pepper)) 5

  -- The body of a token for a key, with the characters of `gen_random_str(6)`.
  abbrev pub token_body : String → String → String
  token_body api_key random = last_n (base64_encode api_key) 5 <> random

  -- The token and when it expires, if the keys are a pair of `m_api_keys`.
  unfoldable pub gen_token : Dict String → String → String → String → Option (String × ℕ)
  gen_token keys api_key api_secret_key random = elim (find api_key keys) [
    | none ↦ none
    | some secret ↦
        if not (str_eq secret api_secret_key)
        then none
        else some
            (token_body api_key random <> signature (token_body api_key random), token_expires_in)
  ]

  unfoldable pub check_token : String → Bool
  check_token token =
      if not (size token == token_size)
      then false
      else str_eq (signature (take_chars 11 token)) (last_n token 5)

  unfoldable pub check_bearer : Checked String → Checked (Unit {0})
  check_bearer (failed e) = failed e
  check_bearer (passed token) = if not (check_token token) then failed "bad token" else passed tt

  unfoldable pub auth : Found → Checked (Unit {0})
  unfolding check_bearer parse_bearer
  auth headers = check_bearer (parse_bearer headers)
