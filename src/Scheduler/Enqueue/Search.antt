-- ===== src/Scheduler/Enqueue/Search.antt =====
-- src/scheduler/default/EnqueueLoopFilter.cpp: what `searchTop` finds.
use contentv.Prelude.{
  ℕ, zero, suc, ◌+◌, ◌*◌, ◌≤◌, ◌<◌, ◌≡◌, refl, sym, subst, ◌⊎◌, inl, inr, List, [], ◌∷◌, Option,
  some, Bool, true, arith, ltb, leb, length, keep, All, All-append, Bool-cases,
}
use mathlib.Core.List.{Sublistᴰ}
use contentv.Core.Url.{Web}
use contentv.Core.FreqMap.{UrlFreq}
use contentv.Core.FreqStats.{max_size, get_top_urls_all, reduce_url_freqs}
use contentv.Ldb.HostDb.{leave_allowed_by_robots}
use contentv.Ldb.UrlDb.{
  Decision, is_allow, is_need_crawl, is_need_crawl_robots, leave_need_urls, leave_need_robots,
}
use contentv.Ldb.UrlDb.Policy.{leave_need_lem}
use contentv.Misc.{Limiter}
use contentv.Scheduler.Enqueue.{
  View, need_crawl_urls, filter_top, limit_urls, search_loop, search_top, as_int,
}

-- The crawl policy of pages or that of robots.txt allows the url at the time of the view.
abbrev pub Allowed : {Db : Type 0} → View Db → UrlFreq → Type 0
Allowed v e =
    (is_allow (is_need_crawl v.urls e.0 v.now) ≡ true)
    ⊎ (is_allow (is_need_crawl_robots v.urls e.0 v.now) ≡ true)

All-keep_imp :
    {A : Type 0} (p : A → Bool) (P : A → Type 0)
    → ((x : A) → p x ≡ true → P x)
    → (xs : List A) → All P (keep p xs)
All-keep_imp p P h [] = tt
All-keep_imp p P h (x ∷ xs) = elim (Bool-cases (p x)) [
  | inl e ↦ rw e (h x e, All-keep_imp p P h xs)
  | inr e ↦ rw e (All-keep_imp p P h xs)
]

All-Sublist : {A : Type 0} (P : A → Type 0) (xs ys : List A) → Sublistᴰ xs ys → All P ys → All P xs
All-Sublist P [] ys s h = tt
All-Sublist P (x ∷ xs) [] s h = elim s [ ]
All-Sublist P (x ∷ xs) (y ∷ ys) (Sublistᴰ.cons s) h = All-Sublist P (x ∷ xs) ys s h.1
All-Sublist P (x ∷ xs) (y ∷ ys) (Sublistᴰ.cons-cons e s) h =
    (subst P (sym e) h.0, All-Sublist P xs ys s h.1)

module _ (web : Web) {Db : Type 0} where
  filter_top-Allowed : (v : View Db) (top : ℕ) → All (Allowed v) (filter_top web v top).1
  unfolding filter_top need_crawl_urls
  filter_top-Allowed v top =
      let split = leave_allowed_by_robots web v.hosts (get_top_urls_all v.stats (as_int top)) in
      All-append (Allowed v) (leave_need_robots v.urls (reduce_url_freqs split.1) v.now).1
        (leave_need_urls v.urls split.0 v.now).1
        (rw ((leave_need_lem v.urls (reduce_url_freqs split.1) v.now).1)
          (All-keep_imp _ (Allowed v) (λ e h. inr h) (reduce_url_freqs split.1)))
        (rw ((leave_need_lem v.urls split.0 v.now).0)
          (All-keep_imp _ (Allowed v) (λ e h. inl h) split.0))

  module _ (limiter : Limiter) (target : ℕ) where
    -- What `searchTop` returns was made from one call of `_filter`, the `i`-th with this `top`: either
    -- it is `target` urls, or it is all urls of that call, fewer than `target`, and `top` was above
    -- the number of known urls.
    abbrev pub Found : (ℕ → View Db) → List UrlFreq → Type 0
    Found views urls =
        (i : ℕ) × (top : ℕ) × All (Allowed (views i)) urls
        × ((length urls ≡ target)
            ⊎ ((urls ≡ (filter_top web (views i) top).1)
                × (length urls < target)
                × (max_size (views i).stats_after < top)))

    limit_urls-Found :
        (views : ℕ → View Db) (i top : ℕ)
        → leb target (length (filter_top web (views i) top).1) ≡ true
        → Found views (limit_urls limiter target (filter_top web (views i) top)).1
    unfolding limit_urls
    limit_urls-Found views i top h =
        let r = filter_top web (views i) top in
        let a = filter_top-Allowed (views i) top in
        elim (Bool-cases (ltb target (length r.1))) [
          | inl e ↦ rw e (
            i,
            top,
            All-Sublist _ _ r.1 (limiter.limit_vector-Sublist r.1 target) a,
            inl (limiter.length-limit_vector r.1 target (ground arith)),
          )
          | inr e ↦ rw e (i, top, a, inl (ground arith))
        ]

    abbrev Ends : (ℕ → View Db) → Option (List Decision × List UrlFreq) → Type 0
    Ends views o = (r : List Decision × List UrlFreq) × (o ≡ some r) × Found views r.1

    search_step-Found :
        (views : ℕ → View Db) (fuel i top : ℕ)
        → (top ≤ max_size (views i).stats_after
            → Ends views (search_loop web limiter target views fuel (suc i) (top * 2)))
        → Ends views (search_loop web limiter target views (suc fuel) i top)
    unfolding search_loop
    search_step-Found views fuel i top again =
        let r = filter_top web (views i) top in
        elim (Bool-cases (leb target (length r.1))) [
          | inl e ↦ (limit_urls limiter target r, rw e refl, limit_urls-Found views i top e)
          | inr e ↦ elim (Bool-cases (ltb (max_size (views i).stats_after) top)) [
            | inl f ↦ (
              r,
              rw (e, f) refl,
              (i, top, filter_top-Allowed (views i) top, inr (refl, ground arith, ground arith)),
            )
            | inr f ↦ let t = again (ground arith) in (t.0, rw (e, f) (t.1), t.2)
          ]
        ]

    search_loop-Found :
        (known : ℕ) (views : ℕ → View Db)
        → ((i : ℕ) → max_size (views i).stats_after ≤ known)
        → (fuel i top : ℕ) → 1 ≤ top
        → known + 1 ≤ top + fuel
        → Ends views (search_loop web limiter target views (suc fuel) i top)
    search_loop-Found known views k zero i top one enough =
        search_step-Found views zero i top (λ le. absurd (omega (arith, k i, le, enough)))
    search_loop-Found known views k (suc fuel) i top one enough =
        search_step-Found views (suc fuel) i top
          (λ le. search_loop-Found known views k fuel (suc i) (top * 2) (omega arith) (omega arith))

    -- `searchTop` ends: if there are never more than `known` urls, a positive target needs at most
    -- `known + 1` rounds of its loop. The urls that it returns are ones that the crawl policy of
    -- pages or of robots.txt allows, and they are exactly `target` many, or else all that a search
    -- above the number of known urls left, which are fewer.
    pub search_top-Found :
        (known : ℕ) (views : ℕ → View Db)
        → ((i : ℕ) → max_size (views i).stats_after ≤ known)
        → 1 ≤ target
        → (r : List Decision × List UrlFreq) × (search_top web limiter target views (suc known)
            ≡ some r)
          × Found views r.1
    unfolding search_top
    search_top-Found known views k one =
        let r = filter_top web (views 0) target in
        elim (Bool-cases (leb target (length r.1))) [
          | inl e ↦ (limit_urls limiter target r, rw e refl, limit_urls-Found views 0 target e)
          | inr e ↦
              let t =
                search_loop-Found known views k known 1 (target * 2) (omega arith) (omega arith) in
              (t.0, rw e (t.1), t.2)
        ]
