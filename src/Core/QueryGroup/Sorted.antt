-- ===== src/Core/QueryGroup/Sorted.antt =====
-- src/core/QueryGroup.cpp: the hits of a group in order.
use contentv.Prelude.{
  ◌≡◌, ◌⊎◌, ◌↔◌, ◌∙◌, String, List, [], ◌∷◌, str_eq, eq_iff, if◌then◌else◌, Bool-cases, inl, inr,
}
use contentv.Prelude.Text.{str_lt}
use contentv.Prelude.Dict.{IsIn}
use contentv.Prelude.Sort.{sort_by}
use contentv.Core.QueryGroup.{Group}

-- `sort`
unfoldable pub sort : Group → Group
unfolding sort_by
sort g = record g { items = sort_by str_lt g.items }

-- `insert` of a `std::set`, which keeps its elements in order.
unfoldable pub set_insert : String → List String → List String
set_insert x [] = x ∷ []
set_insert x (y ∷ s) =
    let rest = set_insert x s in
    if str_eq y x then y ∷ s else if str_lt x y then x ∷ y ∷ s else y ∷ rest

unfoldable pub set_of : List String → List String → List String
unfolding set_insert
set_of s [] = s
set_of s (x ∷ xs) = set_of (set_insert x s) xs

-- `sortAndUniq`
unfoldable pub sort_and_uniq : Group → Group
unfolding set_of
sort_and_uniq g = record g { items = set_of [] g.items }

IsIn-set_insert : (x y : String) (s : List String) → IsIn x (set_insert y s) ↔ ((y ≡ x) ⊎ IsIn x s)
unfolding set_insert
IsIn-set_insert x y [] = (λ h. h, λ h. h)
IsIn-set_insert x y (z ∷ s) = elim (Bool-cases (str_eq z y)) [
  | inl e ↦ rw e (inr, λ h. elim h [ inl p ↦ inl ((eq_iff z y).0 e ∙ p) | inr q ↦ q ])
  | inr e ↦ elim (Bool-cases (str_lt y z)) [
    | inl l ↦ rw (e, l) (λ h. h, λ h. h)
    | inr l ↦
        let ih = IsIn-set_insert x y s in
        rw (e, l)
          (
            (λ h. elim h [
              | inl p ↦ inr (inl p)
              | inr q ↦ elim (ih.0 q) [ inl a ↦ inl a | inr b ↦ inr (inr b) ]
            ]),
            (λ h. elim h [
              | inl p ↦ inr (ih.1 (inl p))
              | inr q ↦ elim q [ inl a ↦ inl a | inr b ↦ inr (ih.1 (inr b)) ]
            ]),
          )
  ]
]

IsIn-set_of : (x : String) → (s xs : List String) → IsIn x (set_of s xs) ↔ (IsIn x s ⊎ IsIn x xs)
unfolding set_of
IsIn-set_of x s [] = (inl, λ h. elim h [ inl a ↦ a | inr b ↦ absurd b ])
IsIn-set_of x s (y ∷ xs) =
    let ih = IsIn-set_of x (set_insert y s) xs in
    let one = IsIn-set_insert x y s in
    (
      (λ h. elim (ih.0 h) [
        | inl a ↦ elim (one.0 a) [ inl p ↦ inr (inl p) | inr q ↦ inl q ]
        | inr b ↦ inr (inr b)
      ]),
      (λ h. elim h [
        | inl a ↦ ih.1 (inl (one.1 (inr a)))
        | inr b ↦ elim b [ inl p ↦ ih.1 (inl (one.1 (inl p))) | inr q ↦ ih.1 (inr q) ]
      ]),
    )

-- `sortAndUniq` keeps exactly the urls that were hits before.
sort_and_uniq_iff : (g : Group) (url : String) → IsIn url (sort_and_uniq g).items ↔ IsIn url g.items
unfolding sort_and_uniq
sort_and_uniq_iff g url =
    let i = IsIn-set_of url [] g.items in
    ((λ h. elim (i.0 h) [ inl a ↦ absurd a | inr b ↦ b ]), (λ h. i.1 (inr h)))
