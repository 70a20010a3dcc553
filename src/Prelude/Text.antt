-- ===== src/Prelude/Text.antt =====
-- Texts by their code points: what `std::string` computes on bytes, for ASCII.
use Prim.Native.Nat.{ℕ, zero, suc, ◌+◌, ◌-◌, Ordering}
use Prim.Native.Char.{code}
use Prim.Native.String.{String, compare}
pub use Prim.Native.String.{◌++◌ as ◌<>◌}
use mathlib.Core.Path.{◌≡◌, refl, ap, ◌∙◌}
use native.Mathlib.Omega.{arith}
use text.Mathlib.TextLemmas.{nil-append, cons-append}
use mathlib.Core.Bool.{Bool, true, false, ◌&&◌}
use mathlib.Core.List.{List, [], ◌∷◌}
use contentv.Prelude.Tests.{leb, ◌==◌}
use contentv.Prelude.Lists.{length, drop}

-- `operator<` on texts, as far as they are ASCII.
abbrev pub str_lt : String → String → Bool
str_lt a b = elim (compare a b) [ Ordering.lt ↦ true | _ ↦ false ]

abbrev pub codes : String → List ℕ
codes String.[] = []
codes (String.◌∷◌ c s) = code c ∷ codes s

unfoldable pub same_codes : List ℕ → List ℕ → Bool
same_codes [] [] = true
same_codes (a ∷ s) (b ∷ t) = a == b && same_codes s t
same_codes _ _ = false

-- `s.ends_with(t)`
unfoldable pub ends_with : String → String → Bool
unfolding same_codes
ends_with s t =
    leb (length (codes t)) (length (codes s))
    && same_codes (drop (length (codes s) - length (codes t)) (codes s)) (codes t)

-- `s.size()`
abbrev pub size : String → ℕ
size String.[] = 0
size (String.◌∷◌ c s) = suc (size s)

-- `s.substr(n)`, for n at most the size.
unfoldable pub drop_chars : ℕ → String → String
drop_chars zero s = s
drop_chars (suc n) String.[] = String.[]
drop_chars (suc n) (String.◌∷◌ c s) = drop_chars n s

-- `s.substr(0, n)`
unfoldable pub take_chars : ℕ → String → String
take_chars zero s = String.[]
take_chars (suc n) String.[] = String.[]
take_chars (suc n) (String.◌∷◌ c s) = String.◌∷◌ c (take_chars n s)

pub size-append : (s t : String) → size (s <> t) ≡ size s + size t
size-append String.[] t = rw nil-append (omega arith)
size-append (String.◌∷◌ c s) t = rw cons-append (omega (arith, size-append s t))

pub drop_chars-append : (s t : String) → drop_chars (size s) (s <> t) ≡ t
unfolding drop_chars
drop_chars-append String.[] t = nil-append t
drop_chars-append (String.◌∷◌ c s) t = rw cons-append (drop_chars-append s t)

pub take_chars-append : (s t : String) → take_chars (size s) (s <> t) ≡ s
unfolding take_chars
take_chars-append String.[] t = refl
take_chars-append (String.◌∷◌ c s) t = rw cons-append (ap (String.◌∷◌ c) (take_chars-append s t))

pub take-append-drop_chars : (n : ℕ) (s : String) → take_chars n s <> drop_chars n s ≡ s
unfolding take_chars drop_chars
take-append-drop_chars zero s = nil-append s
take-append-drop_chars (suc n) String.[] = nil-append String.[]
take-append-drop_chars (suc n) (String.◌∷◌ c s) =
    cons-append c (take_chars n s) (drop_chars n s) ∙ ap (String.◌∷◌ c) (take-append-drop_chars n s)

pub size-drop_chars : (n : ℕ) (s : String) → size (drop_chars n s) ≡ size s - n
unfolding drop_chars
size-drop_chars zero s = omega arith
size-drop_chars (suc n) String.[] = omega arith
size-drop_chars (suc n) (String.◌∷◌ c s) = omega (arith, size-drop_chars n s)
