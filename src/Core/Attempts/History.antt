-- ===== src/Core/Attempts/History.antt =====
-- src/core/CrawlAttempts.cpp: the stored attempts against the whole history.
use contentv.Prelude.{
  ℕ, zero, suc, ◌+◌, ◌-◌, ◌≤◌, ◌<◌, ◌≡◌, refl, sym, ap, ◌∙◌, List, [], ◌∷◌, ◌++◌, arith, ltb,
  length, drop, map, length-append, length-drop, if◌then◌else◌, get_elem?-append_end,
  get_elem?-append_left, Bool-cases, inl, inr,
}
use mathlib.Core.List.{append-nil, append_assoc}
use native.Mathlib.Nat.{zero-add, suc-add}
use contentv.Core.Time.{Tp}
use contentv.Core.Attempts.{
  enqueued, CrawlAttempt, CrawlAttempts, trim, add, is_4xx_5xx, count_from, last_4xx_5xx_count,
}

trim-drop : (l : CrawlAttempts) → trim l ≡ drop (length l - 10) l
unfolding trim
trim-drop [] = refl
trim-drop (x ∷ xs) = elim (Bool-cases (ltb 10 (length (x ∷ xs)))) [
  | inl e ↦
      let n : suc (length xs) - 10 ≡ suc (length xs - 10) = ground arith in rw (e, n) (trim-drop xs)
  | inr e ↦ let n : suc (length xs) - 10 ≡ 0 = ground arith in rw (e, n) refl
]

-- `add` at each of the times, in turn.
pub run_add : (Tp → Tp) → CrawlAttempts → List Tp → CrawlAttempts
run_add round attempts [] = attempts
run_add round attempts (t ∷ ts) = run_add round (add round attempts t).0 ts

abbrev pub attempt_at : (Tp → Tp) → Tp → CrawlAttempt
attempt_at round t = record { tp = round t; status = enqueued }

drop-append_one :
    {A : Type 0} (n : ℕ) (l : List A) (x : A)
    → n ≤ length l
    → drop n (l ++ x ∷ []) ≡ drop n l ++ x ∷ []
drop-append_one zero l x h = refl
drop-append_one (suc n) [] x h = absurd (omega arith)
drop-append_one (suc n) (y ∷ l) x h = drop-append_one n l x (omega arith)

drop-nil : {A : Type 0} (m : ℕ) → drop {A = A} m [] ≡ []
drop-nil zero = refl
drop-nil (suc m) = refl

drop-drop : {A : Type 0} (m n : ℕ) (l : List A) → drop m (drop n l) ≡ drop (n + m) l
drop-drop m zero l = rw zero-add refl
drop-drop {A} m (suc n) [] = drop-nil m ∙ sym (drop-nil (suc n + m))
drop-drop m (suc n) (x ∷ l) = rw suc-add (drop-drop m n l)

-- The last ten of the history.
abbrev pub last_ten : CrawlAttempts → CrawlAttempts
last_ten h = drop (length h - 10) h

add-last_ten :
    (round : Tp → Tp) (h : CrawlAttempts) (t : Tp)
    → (add round (last_ten h) t).0 ≡ last_ten (h ++ attempt_at round t ∷ [])
unfolding add
add-last_ten round h t =
    let k = length h - 10 in
    let l = h ++ attempt_at round t ∷ [] in
    let n : length l ≡ length h + 1 = length-append h (attempt_at round t ∷ []) in
    let m : k + (length (drop k l) - 10) ≡ length l - 10 = omega (arith, length-drop k l) in
    ap trim (sym (drop-append_one k h (attempt_at round t) (omega arith)))
    ∙ (trim-drop (drop k l) ∙ (drop-drop (length (drop k l) - 10) k l ∙ ap (λ i. drop i l) m))

run_add_lem :
    (round : Tp → Tp) (h : CrawlAttempts) (ts : List Tp)
    → run_add round (last_ten h) ts ≡ last_ten (h ++ map (attempt_at round) ts)
unfolding run_add
run_add_lem round h [] = rw append-nil refl
run_add_lem round h (t ∷ ts) = rw (add-last_ten round h t) (
    run_add_lem round (h ++ attempt_at round t ∷ []) ts
    ∙ ap last_ten (append_assoc h (attempt_at round t ∷ []) (map (attempt_at round) ts)))

-- After `add` at each of the times `ts` on a fresh object, exactly the last ten of them are stored,
-- rounded, oldest first, all as enqueued.
pub run_add-last_ten :
    (round : Tp → Tp) (ts : List Tp) → run_add round [] ts ≡ last_ten (map (attempt_at round) ts)
run_add-last_ten round ts = run_add_lem round [] ts

length-last_ten-le : (h : CrawlAttempts) → length (last_ten h) ≤ 10
length-last_ten-le h = omega (arith, length-drop (length h - 10) h)

pub length-trim-le : (l : CrawlAttempts) → length (trim l) ≤ 10
length-trim-le l = rw trim-drop (length-last_ten-le l)

count_from-append :
    (i : ℕ) (l : CrawlAttempts) (b : CrawlAttempt)
    → i < length l
    → count_from i (l ++ b ∷ []) ≡ count_from i l
unfolding count_from
count_from-append zero l b h = refl
count_from-append (suc i) l b h =
    ground (arith, get_elem?-append_left l b (suc i) h, count_from-append i l b (omega arith))

count_from_end :
    (x : CrawlAttempt) (xs : CrawlAttempts) (b : CrawlAttempt)
    → count_from (suc (length xs)) (x ∷ xs ++ b ∷ [])
      ≡ (if is_4xx_5xx b.status then suc (count_from (length xs) (x ∷ xs)) else 0)
unfolding count_from
count_from_end x xs b =
    ground
      (arith, get_elem?-append_end xs b, count_from-append (length xs) (x ∷ xs) b (omega arith))

-- What `last4xx5xxCount` counts, by the attempts in order: none for the first attempt; each further
-- attempt that is a 4xx or 5xx adds one to the count before it, and any other sets it to 0.
last_4xx_5xx_count-append :
    (a : CrawlAttempt) (l : CrawlAttempts) (b : CrawlAttempt)
    → (last_4xx_5xx_count (a ∷ []) ≡ 0)
      × (last_4xx_5xx_count (a ∷ l ++ b ∷ [])
          ≡ (if is_4xx_5xx b.status then suc (last_4xx_5xx_count (a ∷ l)) else 0))
unfolding last_4xx_5xx_count
last_4xx_5xx_count-append a l b =
    let n : length (l ++ b ∷ []) ≡ suc (length l) = omega (arith, length-append l (b ∷ [])) in
    (refl, ap (λ k. count_from k (a ∷ l ++ b ∷ [])) n ∙ count_from_end a l b)

count_from-le : (i : ℕ) (l : CrawlAttempts) → count_from i l ≤ i
unfolding count_from
count_from-le zero l = omega arith
count_from-le (suc i) l = ground (arith, count_from-le i l)

pub last_4xx_5xx_count-le : (l : CrawlAttempts) → last_4xx_5xx_count l ≤ length l - 1
unfolding last_4xx_5xx_count
last_4xx_5xx_count-le [] = omega arith
last_4xx_5xx_count-le (a ∷ l) = omega (arith, count_from-le (length l) (a ∷ l))
