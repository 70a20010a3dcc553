-- ===== src/Api/Parsing.antt =====
-- src/api/v1/APIv1Parsing.cpp: the keys and the token in the header `Authorization`.
use contentv.Prelude.{
  ℕ, ◌+◌, ◌≡◌, refl, ◌⊎◌, inl, inr, String, List, [], ◌∷◌, Option, none, some, not, ◌||◌, ltb, ◌==◌,
  str_eq, if◌then◌else◌,
}
use contentv.Prelude.Text.{size, drop_chars, ◌<>◌}
use contentv.Misc.{Strings}

-- What a method with an `_error_str` tells: its result, or the message where it returns false.
pub data Checked {ℓ} (A : Type ℓ) : Type ℓ where
  passed : A → Checked A
  failed : String → Checked A

-- What `find` of a request's headers, and of its parameters, finds for a name.
abbrev pub Found : Type 0
Found = String → Option String

abbrev pub auth_basic_header : String
auth_basic_header = "Authorization"

abbrev pub header_basic_min_size : ℕ
header_basic_min_size = size "Basic XXX"

abbrev pub header_basic_prefix : String
header_basic_prefix = "Basic "

abbrev pub token_size : ℕ
token_size = 16

abbrev pub header_bearer_prefix : String
header_bearer_prefix = "Bearer "

abbrev pub header_bearer_exact_size : ℕ
header_bearer_exact_size = size header_bearer_prefix + token_size

abbrev keys_error : String
keys_error =
    auth_basic_header <> " header parsing error, expecting: 'Basic $API_KEY:$API_SECRET_KEY'"

-- The test on `auth_tokens`, and the two keys.
unfoldable pub two_tokens : List String → Checked (String × String)
two_tokens [] = failed keys_error
two_tokens (a ∷ []) = failed keys_error
two_tokens (a ∷ b ∷ []) = if str_eq a "" || str_eq b "" then failed keys_error else passed (a, b)
two_tokens (a ∷ b ∷ c ∷ tokens) = failed keys_error

unfoldable pub parse_api_keys : Strings → Found → Checked (String × String)
unfolding two_tokens
parse_api_keys strings headers = elim (headers auth_basic_header) [
  | none ↦ failed (auth_basic_header <> " header not found")
  | some auth_header ↦
      if ltb (size auth_header) header_basic_min_size
      then failed (auth_basic_header <> " header too small")
      else two_tokens (
          strings.split (strings.base64_decode (drop_chars (size header_basic_prefix) auth_header)))
]

unfoldable pub parse_bearer : Found → Checked String
parse_bearer headers = elim (headers auth_basic_header) [
  | none ↦ failed (auth_basic_header <> " header not found")
  | some auth_header ↦
      if not (size auth_header == header_bearer_exact_size)
      then failed (auth_basic_header <> " header wrong size")
      else passed (drop_chars (size header_bearer_prefix) auth_header)
]

pub Checked-cases {ℓ} :
    {A : Type ℓ} (c : Checked A) → ((a : A) × (c ≡ passed a)) ⊎ ((m : String) × (c ≡ failed m))
Checked-cases (passed a) = inl (a, refl)
Checked-cases (failed m) = inr (m, refl)
