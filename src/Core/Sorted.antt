-- ===== src/Core/Sorted.antt =====
-- Queues ordered by time, and dropping what has expired from their front.
use contentv.Prelude.{
  ℕ, ◌≤◌, ◌≡◌, refl, sym, ap, ◌∙◌, keep-append, false, not, List, [], ◌∷◌, ◌++◌, arith, keep,
  drop_while, All, Bool-cases, inl, inr,
}
use contentv.Core.Time.{Tp, is_expired, is_expired_mono, is_expired_later}

module _ {ℓ} {A : Type ℓ} where
  -- The times of the elements do not fall along the list.
  abbrev pub IsSorted : (A → Tp) → List A → Type 0
  IsSorted tp [] = Unit
  IsSorted tp (x ∷ xs) = All (λ y. tp x ≤ tp y) xs × IsSorted tp xs

  -- What a window of that length still holds at that instant.
  abbrev pub live : ℕ → Tp → (A → Tp) → List A → List A
  live window now tp = keep (λ x. not (is_expired window now (tp x)))

  live-All :
      (window now : ℕ) (tp : A → Tp) (x : A) (xs : List A)
      → All (λ y. tp x ≤ tp y) xs
      → is_expired window now (tp x) ≡ false
      → live window now tp xs ≡ xs
  live-All window now tp x [] h e = refl
  live-All window now tp x (y ∷ xs) h e =
      rw (is_expired_mono window now (tp x) (tp y) h.0 e)
        (ap (◌∷◌ y) (live-All window now tp x xs h.1 e))

  -- On an ordered queue, popping the front while it has expired leaves what is live.
  pub drop_while-live :
      (window now : ℕ) (tp : A → Tp) (xs : List A)
      → IsSorted tp xs
      → drop_while (λ x. is_expired window now (tp x)) xs ≡ live window now tp xs
  drop_while-live window now tp [] h = refl
  drop_while-live window now tp (x ∷ xs) h = elim (Bool-cases (is_expired window now (tp x))) [
    | inl e ↦ rw e (drop_while-live window now tp xs h.1)
    | inr e ↦ rw e (ap (◌∷◌ x) (sym (live-All window now tp x xs h.0 e)))
  ]

  pub live-live :
      (window now later : ℕ) (tp : A → Tp) (xs : List A)
      → now ≤ later
      → live window later tp (live window now tp xs) ≡ live window later tp xs
  live-live window now later tp [] h = refl
  live-live window now later tp (x ∷ xs) h = elim (Bool-cases (is_expired window now (tp x))) [
    | inl e ↦ elim (Bool-cases (is_expired window later (tp x))) [
      | inl e' ↦ rw (e, e') (live-live window now later tp xs h)
      | inr e' ↦ cc (is_expired_later window now later (tp x) h e')
    ]
    | inr e ↦ ground (arith, live-live window now later tp xs h, e)
  ]

  pub All-live :
      (P : A → Type 0) (window now : ℕ) (tp : A → Tp) (xs : List A)
      → All P xs
      → All P (live window now tp xs)
  All-live P window now tp [] h = tt
  All-live P window now tp (x ∷ xs) h = ground (arith, All-live P window now tp xs h.1)

  pub live-IsSorted :
      (window now : ℕ) (tp : A → Tp) (xs : List A)
      → IsSorted tp xs
      → IsSorted tp (live window now tp xs)
  live-IsSorted window now tp [] h = tt
  live-IsSorted window now tp (x ∷ xs) h =
      ground (
        arith,
        live-IsSorted window now tp xs h.1,
        All-live (λ y. tp x ≤ tp y) window now tp xs h.0,
      )

  -- An element as late as all before it may stand at the end.
  pub snoc-IsSorted :
      (tp : A → Tp) (xs : List A) (x : A)
      → IsSorted tp xs
      → All (λ y. tp y ≤ tp x) xs
      → IsSorted tp (xs ++ x ∷ [])
  snoc-IsSorted tp [] x h k = (tt, tt)
  snoc-IsSorted tp (y ∷ xs) x h k = (All-snoc xs h.0, snoc-IsSorted tp xs x h.1 k.1)
    where
      All-snoc : (zs : List A) → All (λ z. tp y ≤ tp z) zs → All (λ z. tp y ≤ tp z) (zs ++ x ∷ [])
      All-snoc [] p = (k.0, tt)
      All-snoc (z ∷ zs) p = (p.0, All-snoc zs p.1)

  live-append :
      (window now : ℕ) (tp : A → Tp) (xs ys : List A)
      → live window now tp (xs ++ ys) ≡ live window now tp xs ++ live window now tp ys
  live-append window now tp xs ys = keep-append _ xs ys

  -- To push an element that is the latest and then drop what has expired, in a queue that holds
  -- what was live before, leaves what is live of the whole history.
  pub push-live :
      (window now later : ℕ) (tp : A → Tp) (xs : List A) (x : A)
      → now ≤ later
      → IsSorted tp xs
      → All (λ y. tp y ≤ tp x) xs
      → drop_while (λ y. is_expired window later (tp y)) (live window now tp xs ++ x ∷ [])
        ≡ live window later tp (xs ++ x ∷ [])
  push-live window now later tp xs x le h k =
      drop_while-live window later tp _ (
        snoc-IsSorted tp _ x (live-IsSorted window now tp xs h)
          (All-live (λ y. tp y ≤ tp x) window now tp xs k))
      ∙ (live-append window later tp (live window now tp xs) (x ∷ [])
          ∙ (ap (λ l. l ++ live window later tp (x ∷ [])) (live-live window now later tp xs le)
              ∙ sym (live-append window later tp xs (x ∷ []))))
