-- ===== src/Tests/Texts.antt =====
-- Lists of texts as one text, for test instances of the codecs: a character of a text is written
-- behind an `x`, and each text ends with two `y`.
use Prim.Native.Char.{Char, code}
use Prim.Native.String.{String}
use contentv.Prelude.{ℕ, zero, suc, ◌≡◌, refl, ap, ◌∙◌, List, [], ◌∷◌, ◌==◌, if◌then◌else◌, length}
use contentv.Prelude.Text.{codes}

abbrev finish : String → String
finish rest = String.◌∷◌ "y" (String.◌∷◌ "y" rest)

abbrev write_text : String → String → String
write_text String.[] rest = finish rest
write_text (String.◌∷◌ c s) rest = String.◌∷◌ "x" (String.◌∷◌ c (write_text s rest))

abbrev pub encode : List String → String
encode [] = ""
encode (s ∷ l) = write_text s (encode l)

abbrev pub push_char : Char → List String → List String
push_char c [] = String.◌∷◌ c String.[] ∷ []
push_char c (s ∷ l) = String.◌∷◌ c s ∷ l

abbrev pub decode : String → List String
decode String.[] = []
decode (String.◌∷◌ t String.[]) = []
decode (String.◌∷◌ t (String.◌∷◌ c rest)) =
    if code t == 121 then "" ∷ decode rest else push_char c (decode rest)

decode-write_text : (s rest : String) → decode (write_text s rest) ≡ s ∷ decode rest
decode-write_text String.[] rest = refl
decode-write_text (String.◌∷◌ c s) rest = ap (push_char c) (decode-write_text s rest)

pub decode-encode : (l : List String) → decode (encode l) ≡ l
decode-encode [] = refl
decode-encode (s ∷ l) = decode-write_text s (encode l) ∙ ap (◌∷◌ s) (decode-encode l)

-- A number as that many characters.
abbrev pub unary : ℕ → String
unary zero = ""
unary (suc n) = String.◌∷◌ "a" (unary n)

pub length-unary : (n : ℕ) → length (codes (unary n)) ≡ n
length-unary zero = refl
length-unary (suc n) = ap suc (length-unary n)
