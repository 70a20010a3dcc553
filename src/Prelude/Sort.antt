-- ===== src/Prelude/Sort.antt =====
-- `std::sort` by a comparison. Where the comparison leaves two elements in either order, the
-- library may order them either way; this sort keeps them as they stood.
use Prim.Native.Nat.{ℕ, suc, ◌≤◌}
use mathlib.Core.Bool.{Bool}
use mathlib.Core.List.{List, [], ◌∷◌, Perm}
use mathlib.Core.List.Perm
use native.Mathlib.Omega.{arith}
use contentv.Prelude.Tests.{ltb, if◌then◌else◌, Bool-cases}
use contentv.Prelude.Lists.{All, length}
use mathlib.Core.Path.{◌≡◌, refl}
use mathlib.Core.Logic.{inl, inr}

module _ {ℓ} {A : Type ℓ} where
  unfoldable pub insert_by : (A → A → Bool) → A → List A → List A
  insert_by before x [] = x ∷ []
  insert_by before x (y ∷ ys) = if before y x then y ∷ insert_by before x ys else x ∷ y ∷ ys

  unfoldable pub sort_by : (A → A → Bool) → List A → List A
  unfolding insert_by
  sort_by before [] = []
  sort_by before (x ∷ xs) = insert_by before x (sort_by before xs)

  insert_by-perm :
      (before : A → A → Bool) (x : A) (xs : List A) → Perm (insert_by before x xs) (x ∷ xs)
  unfolding insert_by
  insert_by-perm before x [] = Perm.refl (x ∷ [])
  insert_by-perm before x (y ∷ ys) = elim (Bool-cases (before y x)) [
    | inl e ↦ rw e (Perm.trans (Perm.cons y (insert_by-perm before x ys)) (Perm.swap x y ys))
    | inr e ↦ rw e (Perm.refl (x ∷ y ∷ ys))
  ]

  -- A sorted vector holds the same elements.
  pub sort_by-perm : (before : A → A → Bool) (xs : List A) → Perm (sort_by before xs) xs
  unfolding sort_by
  sort_by-perm before [] = Perm.refl []
  sort_by-perm before (x ∷ xs) =
      Perm.trans (insert_by-perm before x (sort_by before xs))
        (Perm.cons x (sort_by-perm before xs))

  -- The comparison `a.second > b.second` of the program's sorts by frequency.
  abbrev pub more : (A → ℕ) → A → A → Bool
  more freq a b = ltb (freq b) (freq a)

  abbrev pub IsDescending : (A → ℕ) → List A → Type 0
  IsDescending freq [] = Unit
  IsDescending freq (x ∷ xs) = All (λ y. freq y ≤ freq x) xs × IsDescending freq xs

  pub All-insert_by :
      (P : A → Type 0) (before : A → A → Bool) (x : A) (xs : List A)
      → P x
      → All P xs
      → All P (insert_by before x xs)
  unfolding insert_by
  All-insert_by P before x [] p h = (p, tt)
  All-insert_by P before x (y ∷ ys) p h = ground (arith, All-insert_by P before x ys p h.1)

  All-below :
      (freq : A → ℕ) (x y : A) (ys : List A)
      → freq y ≤ freq x
      → All (λ z. freq z ≤ freq y) ys
      → All (λ z. freq z ≤ freq x) ys
  All-below freq x y [] le h = tt
  All-below freq x y (z ∷ zs) le h = (omega arith, All-below freq x y zs le h.1)

  insert_by-IsDescending :
      (freq : A → ℕ) (x : A) (xs : List A)
      → IsDescending freq xs
      → IsDescending freq (insert_by (more freq) x xs)
  unfolding insert_by
  insert_by-IsDescending freq x [] h = (tt, tt)
  insert_by-IsDescending freq x (y ∷ ys) h = elim (Bool-cases (more freq y x)) [
    | inl e ↦ rw e (
      All-insert_by (λ z. freq z ≤ freq y) (more freq) x ys (ground arith) h.0,
      insert_by-IsDescending freq x ys h.1,
    )
    | inr e ↦ rw e ((ground arith, All-below freq x y ys (ground arith) h.0), h)
  ]

  pub sort_by-IsDescending :
      (freq : A → ℕ) (xs : List A) → IsDescending freq (sort_by (more freq) xs)
  unfolding sort_by
  sort_by-IsDescending freq [] = tt
  sort_by-IsDescending freq (x ∷ xs) =
      insert_by-IsDescending freq x _ (sort_by-IsDescending freq xs)

  pub All-sort_by :
      (P : A → Type 0) (before : A → A → Bool) (xs : List A) → All P xs → All P (sort_by before xs)
  unfolding sort_by
  All-sort_by P before [] h = tt
  All-sort_by P before (x ∷ xs) h = All-insert_by P before x _ h.0 (All-sort_by P before xs h.1)

  length-insert_by :
      (before : A → A → Bool) (x : A) (xs : List A)
      → length (insert_by before x xs) ≡ suc (length xs)
  unfolding insert_by
  length-insert_by before x [] = refl
  length-insert_by before x (y ∷ ys) = ground (arith, length-insert_by before x ys)

  pub length-sort_by :
      (before : A → A → Bool) (xs : List A) → length (sort_by before xs) ≡ length xs
  unfolding sort_by
  length-sort_by before [] = refl
  length-sort_by before (x ∷ xs) =
      omega (arith, length-insert_by before x (sort_by before xs), length-sort_by before xs)
