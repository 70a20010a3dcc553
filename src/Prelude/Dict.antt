-- ===== src/Prelude/Dict.antt =====
-- A dictionary with text keys, as an association list: the maps of the C++ standard library.
-- The order of the list stands for the order in which an unordered map is walked.
use Prim.Native.String.{String}
use mathlib.Core.Path.{◌≡◌, refl, subst, ◌∙◌}
use mathlib.Core.Logic.{◌≢◌, ◌⊎◌, ◌↔◌, inl, inr}
use mathlib.Core.Option.{Option, none, some}
use mathlib.Core.List.{List, [], ◌∷◌, ◌++◌}
use native.Mathlib.Omega.{arith}
use text.Mathlib.Text.{◌==◌ as str_eq}
use text.Mathlib.TextEquality.{eq_iff}
use text.Mathlib.TextPositions.{eq_refl}
use mathlib.Core.Bool.{Bool, true}
use contentv.Prelude.Tests.{if◌then◌else◌, Bool-cases}
use contentv.Prelude.Lists.{All, length, keep}
use Prim.Native.Nat.{suc, ◌≤◌}

-- A copy that keeps the type's parameter visible to the tactics.
abbrev pub Dict {ℓ} : Type ℓ → Type ℓ
Dict V = List (String × V)

module _ {ℓ} {V : Type ℓ} where
  unfoldable pub find : String → Dict V → Option V
  find k [] = none
  find k ((j, v) ∷ m) = if str_eq j k then some v else find k m

  -- `m[k] = v`
  unfoldable pub insert : String → V → Dict V → Dict V
  insert k v [] = (k, v) ∷ []
  insert k v ((j, w) ∷ m) = if str_eq j k then (k, v) ∷ m else (j, w) ∷ insert k v m

  unfoldable pub erase : String → Dict V → Dict V
  erase k [] = []
  erase k ((j, w) ∷ m) = if str_eq j k then erase k m else (j, w) ∷ erase k m

  -- No key stands twice.
  abbrev pub IsUnique : Dict V → Type ℓ
  IsUnique [] = Unit
  IsUnique (e ∷ m) = (find e.0 m ≡ none) × IsUnique m

  pub find-insert :
      (k j : String) (v : V) (m : Dict V)
      → find j (insert k v m) ≡ (if str_eq k j then some v else find j m)
  unfolding find insert
  find-insert k j v [] = refl
  find-insert k j v ((i, w) ∷ m) =
      ground (arith, eq_iff k j, eq_iff i k, eq_iff i j, find-insert k j v m)

  pub find-insert_self : (k : String) (v : V) (m : Dict V) → find k (insert k v m) ≡ some v
  find-insert_self k v m = simp (find-insert, eq_refl)

  pub find-insert_ne :
      (k j : String) (v : V) (m : Dict V) → k ≢ j → find j (insert k v m) ≡ find j m
  find-insert_ne k j v m h = ground (arith, eq_iff k j, find-insert k j v m)

  pub find-erase :
      (k j : String) (m : Dict V) → find j (erase k m) ≡ (if str_eq k j then none else find j m)
  unfolding find erase
  find-erase k j [] = ground arith
  find-erase k j ((i, w) ∷ m) = ground (arith, eq_iff k j, eq_iff i k, eq_iff i j, find-erase k j m)

  pub insert-IsUnique : (k : String) (v : V) (m : Dict V) → IsUnique m → IsUnique (insert k v m)
  unfolding insert find
  insert-IsUnique k v [] u = (refl, tt)
  insert-IsUnique k v ((i, w) ∷ m) u =
      ground (arith, eq_iff i k, eq_iff k i, find-insert k i v m, insert-IsUnique k v m u.1)

  pub erase-IsUnique : (k : String) (m : Dict V) → IsUnique m → IsUnique (erase k m)
  unfolding erase find
  erase-IsUnique k [] u = tt
  erase-IsUnique k ((i, w) ∷ m) u =
      ground (arith, eq_iff k i, find-erase k i m, erase-IsUnique k m u.1)

  pub length-insert-le : (k : String) (v : V) (m : Dict V) → length (insert k v m) ≤ suc (length m)
  unfolding insert
  length-insert-le k v [] = omega arith
  length-insert-le k v ((i, w) ∷ m) = ground (arith, length-insert-le k v m)

  pub All-insert :
      (P : String × V → Type 0) (k : String) (v : V) (m : Dict V)
      → P (k, v)
      → All P m
      → All P (insert k v m)
  unfolding insert
  All-insert P k v [] p h = (p, tt)
  All-insert P k v ((i, w) ∷ m) p h = ground (arith, All-insert P k v m p h.1)

  -- What holds of all entries holds of an entry that is found.
  pub find-All :
      (P : String × V → Type 0) (k : String) (v : V) (m : Dict V)
      → All P m
      → find k m ≡ some v
      → P (k, v)
  unfolding find
  find-All P k v [] h e = cc
  find-All P k v ((i, w) ∷ m) h e = elim (Bool-cases (str_eq i k)) [
    | inl t ↦
        let key : i ≡ k = (eq_iff i k).0 t in
        let val : w ≡ v = ground (arith, t) in
        subst (λ x. P (x, v)) key (subst (λ y. P (i, y)) val h.0)
    | inr t ↦ find-All P k v m h.1 (ground (arith, t))
  ]

  -- In a dictionary without a key twice, what holds of the entries that are found holds of all.
  pub All-find :
      (P : String × V → Type 0) (m : Dict V)
      → IsUnique m
      → ((k : String) (v : V) → find k m ≡ some v → P (k, v))
      → All P m
  unfolding find
  All-find P [] u h = tt
  All-find P ((i, w) ∷ m) u h = (
    h i w (rw (eq_refl i) refl),
    All-find P m u.1 (λ k v e. elim (Bool-cases (str_eq i k)) [
      | inl t ↦ absurd (clash (subst (λ x. find x m ≡ none) ((eq_iff i k).0 t) u.0) e)
      | inr t ↦ h k v (rw t e)
    ]),
  )
    where
      clash : {o : Option V} {v : V} → o ≡ none → o ≡ some v → ⊥
      clash e f = cc

  pub find-keep :
      (p : String → Bool) (k : String) (m : Dict V)
      → find k (keep (λ (e : String × V). p e.0) m) ≡ (if p k then find k m else none)
  unfolding find
  find-keep p k [] = ground arith
  find-keep p k ((j, v) ∷ m) = ground (arith, eq_iff j k, find-keep p k m)

  pub keep-IsUnique :
      (p : String → Bool) (m : Dict V) → IsUnique m → IsUnique (keep (λ (e : String × V). p e.0) m)
  keep-IsUnique p [] u = tt
  keep-IsUnique p ((j, v) ∷ m) u = ground (arith, find-keep p j m, keep-IsUnique p m u.1)

abbrev pub IsIn : String → List String → Type 0
IsIn x [] = ⊥
IsIn x (y ∷ ys) = (y ≡ x) ⊎ IsIn x ys

-- `insert` of a set of texts, whose order is not modelled.
unfoldable pub add_to_set : String → List String → List String
add_to_set u [] = u ∷ []
add_to_set u (v ∷ s) = if str_eq v u then v ∷ s else v ∷ add_to_set u s

pub IsIn-add_to_set :
    (x y : String) (s : List String) → IsIn x (add_to_set y s) ↔ ((y ≡ x) ⊎ IsIn x s)
unfolding add_to_set
IsIn-add_to_set x y [] = (λ h. h, λ h. h)
IsIn-add_to_set x y (z ∷ s) = elim (Bool-cases (str_eq z y)) [
  | inl e ↦ rw e (inr, λ h. elim h [ inl p ↦ inl ((eq_iff z y).0 e ∙ p) | inr q ↦ q ])
  | inr e ↦
      let ih = IsIn-add_to_set x y s in
      rw e (
        (λ h. elim h [
          | inl p ↦ inr (inl p)
          | inr q ↦ elim (ih.0 q) [ inl a ↦ inl a | inr b ↦ inr (inr b) ]
        ]),
        (λ h. elim h [
          | inl p ↦ inr (ih.1 (inl p))
          | inr q ↦ elim q [ inl a ↦ inl a | inr b ↦ inr (ih.1 (inr b)) ]
        ]),
      )
]

-- A key in front of a map and behind stands twice.
find-middle {ℓ} :
    {V : Type ℓ} (k j : String) (v : V) (m days : Dict V)
    → str_eq k j ≡ true
    → find j (m ++ (k, v) ∷ days) ≢ none
unfolding find
find-middle k j v [] days e = ground (arith, e)
find-middle k j v ((i, w) ∷ m) days e = ground (arith, e, find-middle k j v m days e)

pub insert_new {ℓ} :
    {V : Type ℓ} (k : String) (v : V) (m days : Dict V)
    → IsUnique (m ++ (k, v) ∷ days)
    → insert k v m ≡ m ++ (k, v) ∷ []
unfolding insert
insert_new k v [] days u = refl
insert_new k v ((j, w) ∷ m) days u = elim (Bool-cases (str_eq j k)) [
  | inl e ↦ absurd (find-middle k j v m days (ground (arith, eq_iff j k, eq_iff k j, e)) u.0)
  | inr e ↦ rw (e, insert_new k v m days u.1) refl
]
