-- ===== src/Worker/ReqBatch.antt =====
-- src/worker/ReqBatch.h and .cpp: the records that wait for the scheduler's permission.
use contentv.Prelude.{
  ℕ, zero, suc, ◌≤◌, ◌≡◌, refl, ap, min, List, [], ◌∷◌, ◌++◌, arith, ltb, ◌==◌, length, take, drop,
  if◌then◌else◌, length-take, Bool-cases, inl, inr,
}
use contentv.Prelude.Result.{Result, ok, throws}
use contentv.Core.Records.{GfqRecord}

abbrev pub ReqBatch : Type 0
ReqBatch = List GfqRecord

unfoldable pub acc : ReqBatch → GfqRecord → ReqBatch
acc reqs req = reqs ++ req ∷ []

unfoldable pub merge : ReqBatch → ReqBatch → ReqBatch
merge reqs a = reqs ++ a

-- The loop of `getReqs`: the copied records and their number.
unfoldable pub get_reqs : ReqBatch → ℕ → List GfqRecord × ℕ
get_reqs [] n = ([], 0)
get_reqs (r ∷ reqs) zero = ([], 0)
get_reqs (r ∷ reqs) (suc n) = let rest = get_reqs reqs n in (r ∷ rest.0, suc rest.1)

unfoldable pub slice : ReqBatch → ℕ → Result ReqBatch
slice reqs n =
    if n == length reqs
    then ok []
    else if ltb (length reqs) n
    then throws "ReqBatch::slice _slice_count > size"
    else ok (drop n reqs)

get_reqs-take : (reqs : ReqBatch) (n : ℕ) → get_reqs reqs n ≡ (take n reqs, length (take n reqs))
unfolding get_reqs
get_reqs-take [] zero = refl
get_reqs-take [] (suc n) = refl
get_reqs-take (r ∷ reqs) zero = refl
get_reqs-take (r ∷ reqs) (suc n) = rw (get_reqs-take reqs n) refl

slice-drop : (reqs : ReqBatch) (n : ℕ) → n ≤ length reqs → slice reqs n ≡ ok (drop n reqs)
unfolding slice
slice-drop reqs n h = elim (Bool-cases (n == length reqs)) [
  | inl e ↦ rw e (ap ok (none_left reqs n (ground arith)))
  | inr e ↦ rw e (ground arith)
]
  where
    none_left : (xs : ReqBatch) (k : ℕ) → length xs ≤ k → [] ≡ drop k xs
    none_left [] zero q = refl
    none_left [] (suc k) q = refl
    none_left (x ∷ xs) zero q = absurd (omega (arith, q))
    none_left (x ∷ xs) (suc k) q = none_left xs k (omega arith)

-- `getReqs` of at most `n` records, then `slice` by the number of them: the slice does not throw,
-- and the two parts together are the batch, the first with at most `n` records.
pub slice-get_reqs :
    (reqs : ReqBatch) (n : ℕ)
    → (rest : ReqBatch) × (slice reqs (get_reqs reqs n).1 ≡ ok rest)
      × ((get_reqs reqs n).0 ++ rest ≡ reqs)
      × (length (get_reqs reqs n).0 ≡ min n (length reqs))
slice-get_reqs reqs n = rw get_reqs-take (
  drop (length (take n reqs)) reqs,
  slice-drop reqs (length (take n reqs)) (omega (arith, length-take n reqs)),
  same reqs n,
  length-take n reqs,
)
  where
    same : (xs : ReqBatch) (k : ℕ) → take k xs ++ drop (length (take k xs)) xs ≡ xs
    same xs zero = refl
    same [] (suc k) = refl
    same (x ∷ xs) (suc k) = rw (same xs k) refl
