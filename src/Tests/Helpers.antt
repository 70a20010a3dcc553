-- ===== src/Tests/Helpers.antt =====
-- Test instances: JSON values, the trie and the helpers of src/misc.
use contentv.Prelude.{
  ℕ, zero, suc, ◌≡◌, ◌↔◌, inl, inr, refl, sym, ap, subst, ◌∙◌, String, List, [], ◌∷◌, ◌++◌, some,
  Bool, true, false, arith, map, keep, take, length-take, str_eq, eq_iff, if◌then◌else◌, Bool-cases,
}
use mathlib.Core.List.{Sublistᴰ, Perm}
use mathlib.Core.List.Perm
use contentv.Prelude.Dict.{IsIn}
use contentv.Core.Records.{GfqRecord}
use contentv.Core.QueryGroup.{JsonCpp}
use contentv.Core.Matcher.{Trie}
use contentv.Ldb.UrlsDays.{Calendar}
use contentv.Misc.{Limiter, Differ, MergeQueue}
use contentv.Tests.Texts.{encode, decode, decode-encode, unary}

-- A JSON value as a list of texts, a tag in front, and that list as one text.
abbrev behind : String → List String → List String
behind tag [] = []
behind tag (t ∷ l) = if str_eq t tag then l else []

abbrev lookup : String → List String → String
lookup k [] = ""
lookup k (j ∷ []) = ""
lookup k (j ∷ v ∷ l) = if str_eq j k then v else lookup k l

abbrev has_tag : String → List String → Bool
has_tag tag [] = false
has_tag tag (t ∷ l) = str_eq t tag

abbrev is_empty : List String → Bool
is_empty [] = true
is_empty (t ∷ l) = false

abbrev first : List String → String
first [] = ""
first (t ∷ l) = t

abbrev pub json : JsonCpp
json = record {
  Value = String;
  null = "";
  string = λ s. encode ("s" ∷ s ∷ []);
  number = λ n. encode ("n" ∷ unary n ∷ []);
  append = λ v w. encode ("a" ∷ behind "a" (decode v) ++ w ∷ []);
  set = λ k w v. encode ("o" ∷ k ∷ w ∷ behind "o" (decode v));
  get = λ j v. lookup j (behind "o" (decode v));
  is_string = λ v. has_tag "s" (decode v);
  is_null = λ v. is_empty (decode v);
  is_array = λ v. has_tag "a" (decode v);
  as_string = λ v. first (behind "s" (decode v));
  elements = λ v. behind "a" (decode v);
  write = λ v. v;
  read = λ text. some text;
  get-set = λ k j w v.
      ap (λ l. lookup j (behind "o" l)) (decode-encode ("o" ∷ k ∷ w ∷ behind "o" (decode v)));
  is_string-string = λ s. ap (has_tag "s") (decode-encode ("s" ∷ s ∷ []));
  as_string-string = λ s. ap (λ l. first (behind "s" l)) (decode-encode ("s" ∷ s ∷ []));
  is_null-null = refl;
  elements-null = refl;
  is_null-append = λ v w. ap is_empty (decode-encode ("a" ∷ behind "a" (decode v) ++ w ∷ []));
  is_array-append = λ v w. ap (has_tag "a") (decode-encode ("a" ∷ behind "a" (decode v) ++ w ∷ []));
  elements-append = λ v w. ap (behind "a") (decode-encode ("a" ∷ behind "a" (decode v) ++ w ∷ []));
  read-write = λ v. refl;
}

-- A trie that meets only whole texts.
pub IsIn-keep :
    (p : String → Bool) (x : String) (xs : List String)
    → IsIn x (keep p xs) ↔ (IsIn x xs × (p x ≡ true))
IsIn-keep p x [] = (λ h. absurd h, λ h. h.0)
IsIn-keep p x (y ∷ xs) = elim (Bool-cases (p y)) [
  | inl e ↦ rw e (
    (λ h. elim h [
      | inl a ↦ (inl a, ap p (sym a) ∙ e)
      | inr b ↦ (inr ((IsIn-keep p x xs).0 b).0, ((IsIn-keep p x xs).0 b).1)
    ]),
    (λ h. elim (h.0) [ inl a ↦ inl a | inr b ↦ inr ((IsIn-keep p x xs).1 (b, h.1)) ]),
  )
  | inr e ↦ rw e (
    (λ h. (inr ((IsIn-keep p x xs).0 h).0, ((IsIn-keep p x xs).0 h).1)),
    (λ h. elim (h.0) [
      | inl a ↦ absurd (clash (ap p a ∙ h.1) e)
      | inr b ↦ (IsIn-keep p x xs).1 (b, h.1)
    ]),
  )
]
  where
    clash : {b : Bool} → b ≡ true → b ≡ false → ⊥
    clash f g = cc

abbrev pub trie : Trie
trie = record {
  Occurs = λ query text. str_eq query text ≡ true;
  parse_text = λ keywords text. keep (λ query. str_eq query text) keywords;
  parse_text_iff = λ keywords text query. IsIn-keep (λ q. str_eq q text) query keywords;
}

nil-Sublist : {A : Type 0} (xs : List A) → Sublistᴰ [] xs
nil-Sublist [] = Sublistᴰ.slnil
nil-Sublist (x ∷ xs) = Sublistᴰ.cons (nil-Sublist xs)

pub take-Sublist : {A : Type 0} (n : ℕ) (xs : List A) → Sublistᴰ (take n xs) xs
take-Sublist zero xs = nil-Sublist xs
take-Sublist (suc n) [] = Sublistᴰ.slnil
take-Sublist (suc n) (x ∷ xs) = Sublistᴰ.cons-cons refl (take-Sublist n xs)

abbrev pub limiter : Limiter
limiter = record {
  limit_vector = λ v n. take n v;
  length-limit_vector = λ v n h. omega (arith, length-take n v, h);
  limit_vector-Sublist = λ v n. take-Sublist n v;
}

-- What is left when the urls of the second list are taken from the first, in order.
abbrev minus : List GfqRecord → List GfqRecord → List GfqRecord
minus [] b = []
minus (y ∷ a) [] = y ∷ a
minus (y ∷ a) (x ∷ b) = if str_eq y.url x.url then minus a b else y ∷ minus a (x ∷ b)

abbrev urls : List GfqRecord → List String
urls = map (λ g. g.url)

tail-Sublist : (x : String) (b a : List String) → Sublistᴰ (x ∷ b) a → Sublistᴰ b a
tail-Sublist x b [] s = elim s [ ]
tail-Sublist x b (y ∷ a) (Sublistᴰ.cons s) = Sublistᴰ.cons (tail-Sublist x b a s)
tail-Sublist x b (y ∷ a) (Sublistᴰ.cons-cons e s) = Sublistᴰ.cons s

pub urls-Sublist : (b a : List GfqRecord) → Sublistᴰ b a → Sublistᴰ (urls b) (urls a)
urls-Sublist [] a s = nil-Sublist (urls a)
urls-Sublist (x ∷ b) [] s = elim s [ ]
urls-Sublist (x ∷ b) (y ∷ a) (Sublistᴰ.cons s) = Sublistᴰ.cons (urls-Sublist (x ∷ b) a s)
urls-Sublist (x ∷ b) (y ∷ a) (Sublistᴰ.cons-cons e s) =
    Sublistᴰ.cons-cons (ap (λ g. g.url) e) (urls-Sublist b a s)

urls-middle :
    (b : List GfqRecord) (y : GfqRecord) (m : List GfqRecord)
    → Perm (urls (b ++ y ∷ m)) (y.url ∷ urls (b ++ m))
urls-middle [] y m = Perm.refl (y.url ∷ urls m)
urls-middle (x ∷ b) y m =
    Perm.trans (Perm.cons x.url (urls-middle b y m)) (Perm.swap y.url x.url (urls (b ++ m)))

pub minus-Perm :
    (a b : List GfqRecord) → Sublistᴰ (urls b) (urls a) → Perm (urls (b ++ minus a b)) (urls a)
minus-Perm [] [] s = Perm.refl []
minus-Perm [] (x ∷ b) s = elim s [ ]
minus-Perm (y ∷ a) [] s = Perm.refl (urls (y ∷ a))
minus-Perm (y ∷ a) (x ∷ b) s = elim (Bool-cases (str_eq y.url x.url)) [
  | inl e ↦
      let key : y.url ≡ x.url = (eq_iff y.url x.url).0 e in
      rw e (
        subst (λ u. Perm (x.url ∷ urls (b ++ minus a b)) (u ∷ urls a)) (sym key)
          (Perm.cons x.url (minus-Perm a b (shorter s))))
  | inr e ↦ rw e (
      Perm.trans (urls-middle (x ∷ b) y (minus a (x ∷ b)))
        (Perm.cons y.url (minus-Perm a (x ∷ b) (other e s))))
]
  where
    shorter : Sublistᴰ (x.url ∷ urls b) (y.url ∷ urls a) → Sublistᴰ (urls b) (urls a)
    shorter (Sublistᴰ.cons t) = tail-Sublist x.url (urls b) (urls a) t
    shorter (Sublistᴰ.cons-cons p t) = t

    other :
        str_eq y.url x.url ≡ false
        → Sublistᴰ (x.url ∷ urls b) (y.url ∷ urls a)
        → Sublistᴰ (x.url ∷ urls b) (urls a)
    other e (Sublistᴰ.cons t) = t
    other e (Sublistᴰ.cons-cons p t) = absurd (clash ((eq_iff y.url x.url).1 (sym p)) e)
      where
        clash : {b : Bool} → b ≡ true → b ≡ false → ⊥
        clash f g = cc

abbrev pub differ : Differ
differ = record {
  sorted_minus = minus;
  sorted_minus-Perm = λ a b s. minus-Perm a b (urls-Sublist b a s);
}

abbrev pub calendar : Calendar
calendar = record { get_day_str = λ t. "2024-05-05"; tp_from_day_str = λ day. 0 }

abbrev pub queue : (Event : Type 0) → MergeQueue Event
queue Event = record {
  Queue = List Event;
  push = λ q e. q ++ e ∷ [];
  waiting = λ q. q;
  waiting-push = λ q e. refl;
}
