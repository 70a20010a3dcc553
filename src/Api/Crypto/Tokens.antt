-- ===== src/Api/Crypto/Tokens.antt =====
-- src/api/v1/APIv1Crypto.cpp: which headers are accepted, and that an issued token is.
use contentv.Prelude.{
  ◌≡◌, ◌↔◌, refl, sym, ap, subst, ◌∙◌, String, none, some, true, false, ◌==◌, ==_iff, eq_iff,
  Bool-cases, Option-cases, inl, inr, arith,
}
use contentv.Prelude.Text.{
  size, take_chars, drop_chars, ◌<>◌, size-append, drop_chars-append, take_chars-append,
  take-append-drop_chars, size-drop_chars,
}
use contentv.Misc.{Strings}
use contentv.Api.Parsing.{Found, passed, failed, parse_bearer}
use contentv.Api.Crypto.{signature, check_token, check_bearer, auth}

module _ (strings : Strings) where
  open strings use {base64_encode, last_n, decode-encode, last_n-append, split-append}

  -- Eleven characters and their signature.
  abbrev pub IsSigned : String → Type 0
  IsSigned token =
      (body : String) × (sig : String) × (token ≡ body <> sig)
      × (size body ≡ 11)
      × (size sig ≡ 5)
      × (signature strings body ≡ sig)

  last_n_five : (s t : String) → size t ≡ 5 → last_n (s <> t) 5 ≡ t
  last_n_five s t h = subst (λ n. last_n (s <> t) n ≡ t) h (last_n-append s t)

  check_token_of : (token : String) → IsSigned token → check_token strings token ≡ true
  unfolding check_token
  check_token_of token (body, sig, e, b, s, signed) =
      let len : size token ≡ 16 = ap size e ∙ omega (arith, size-append body sig, b, s) in
      let cut : take_chars 11 token ≡ body =
        ap (take_chars 11) e
        ∙ subst (λ n. take_chars n (body <> sig) ≡ body) b (take_chars-append body sig) in
      let last : last_n token 5 ≡ sig = ap (λ t. last_n t 5) e ∙ last_n_five body sig s in
      rw ((==_iff (size token) 16).1 len, cut, last)
        ((eq_iff (signature strings body) sig).1 signed)

  IsSigned-of : (token : String) → check_token strings token ≡ true → IsSigned token
  unfolding check_token
  IsSigned-of token h = elim (Bool-cases (size token == 16)) [
    | inl e ↦
        let body = take_chars 11 token in
        let sig = drop_chars 11 token in
        let whole : body <> sig ≡ token = take-append-drop_chars 11 token in
        let len : size token ≡ 16 = (==_iff (size token) 16).0 e in
        let s : size sig ≡ 5 = omega (arith, size-drop_chars 11 token, len) in
        let b : size body ≡ 11 = omega (arith, size-append body sig, ap size whole, len, s) in
        let last : last_n token 5 ≡ sig =
          ap (λ t. last_n t 5) (sym whole) ∙ last_n_five body sig s in
        (
          body,
          sig,
          sym whole,
          b,
          s,
          (eq_iff (signature strings body) (last_n token 5)).0 (rw e at h) ∙ last,
        )
    | inr e ↦ absurd (clash (rw e at h))
  ]
    where
      clash : false ≡ true → ⊥
      clash e = cc

  -- What `_auth` accepts: any seven characters and a signed token.
  abbrev pub IsBearer : Found → Type 0
  IsBearer headers =
      (prefix : String) × (token : String) × (headers "Authorization" ≡ some (prefix <> token))
      × (size prefix ≡ 7)
      × IsSigned token

  parse_bearer_of :
      (headers : Found) (prefix token : String)
      → headers "Authorization" ≡ some (prefix <> token)
      → size prefix ≡ 7
      → size token ≡ 16
      → parse_bearer headers ≡ passed token
  unfolding parse_bearer
  parse_bearer_of headers prefix token h p n =
      let len : (size (prefix <> token) == 23) ≡ true =
        (==_iff (size (prefix <> token)) 23).1 (omega (arith, size-append prefix token, p, n)) in
      let cut : drop_chars 7 (prefix <> token) ≡ token =
        subst (λ n. drop_chars n (prefix <> token) ≡ token) p (drop_chars-append prefix token) in
      rw (h, parse_bearer) (rw (len, cut) refl)

  auth_of : (headers : Found) → IsBearer headers → auth strings headers ≡ passed tt
  unfolding auth
  auth_of headers (prefix, token, h, p, t) =
      let n : size token ≡ 16 = ap size (t.2) ∙ omega (arith, size-append (t.0) (t.1), t.3, t.4) in
      ap (check_bearer strings) (parse_bearer_of headers prefix token h p n)
      ∙ rw (check_token_of token t) refl

  IsBearer-of : (headers : Found) → auth strings headers ≡ passed tt → IsBearer headers
  unfolding auth
  IsBearer-of headers h = elim (Option-cases (headers "Authorization")) [
    | inl e ↦ absurd (clash (ap (check_bearer strings) (sym (missing e)) ∙ h))
    | inr (a, e) ↦ elim (Bool-cases (size a == 23)) [
      | inl n ↦
          let whole : take_chars 7 a <> drop_chars 7 a ≡ a = take-append-drop_chars 7 a in
          let len : size a ≡ 23 = (==_iff (size a) 23).0 n in
          let rest : size (drop_chars 7 a) ≡ 16 = omega (arith, size-drop_chars 7 a, len) in
          let first : size (take_chars 7 a) ≡ 7 =
            omega
              (arith, size-append (take_chars 7 a) (drop_chars 7 a), ap size whole, len, rest) in
          let found : headers "Authorization" ≡ some (take_chars 7 a <> drop_chars 7 a) =
            e ∙ ap some (sym whole) in
          let parsed = parse_bearer_of headers (take_chars 7 a) (drop_chars 7 a) found first rest in
          (
            take_chars 7 a,
            drop_chars 7 a,
            found,
            first,
            IsSigned-of (drop_chars 7 a)
                (checked (drop_chars 7 a) (ap (check_bearer strings) (sym parsed) ∙ h)),
          )
      | inr n ↦ absurd (clash (ap (check_bearer strings) (sym (wrong_size a e n)) ∙ h))
    ]
  ]
    where
      clash : {m : String} → check_bearer strings (failed m) ≡ passed tt → ⊥
      clash e = cc

      missing :
          headers "Authorization" ≡ none
          → parse_bearer headers ≡ failed ("Authorization" <> " header not found")
      missing e = rw (e, parse_bearer) refl

      wrong_size :
          (a : String)
          → headers "Authorization" ≡ some a
          → (size a == 23) ≡ false
          → parse_bearer headers ≡ failed ("Authorization" <> " header wrong size")
      wrong_size a e n = rw (e, parse_bearer) (rw n refl)

      checked :
          (token : String)
          → check_bearer strings (passed token) ≡ passed tt
          → check_token strings token ≡ true
      checked token e = ground (arith, e)

  -- `_auth` accepts a request exactly when its header is any seven characters, followed by eleven
  -- characters and five that are their signature.
  pub auth_iff : (headers : Found) → (auth strings headers ≡ passed tt) ↔ IsBearer headers
  auth_iff headers = (IsBearer-of headers, auth_of headers)
