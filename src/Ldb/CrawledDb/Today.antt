-- ===== src/Ldb/CrawledDb/Today.antt =====
-- src/ldb/CrawledDb.cpp: `_getTodayEvents` against the visits of the day.
use contentv.Prelude.{
  ℕ, ◌≡◌, ◌⊎◌, refl, sym, ap, ap₂, ◌∙◌, subst, String, [], ◌∷◌, none, some, Bool, true, false, All,
  str_eq, eq_iff, if◌then◌else◌, Bool-cases, Option-cases, inl, inr,
}
use contentv.Prelude.Dict.{Dict, find, IsUnique, find-All}
use contentv.Core.FreqMap.{count_of}
use contentv.Ldb.UrlsDays.{UrlDays, UrlsDays, str_lt}
use contentv.Ldb.UrlsDays.Counts.{visits, visits_found, visits-none}
use contentv.Ldb.UrlsDays.Days.{AllDays, AllDaysOf}
use contentv.Ldb.CrawledDb.{gen_fake_url_for_result, last_day, last_cnt, get_today_events}

-- The day is before today.
abbrev pub IsBefore : String → String → Type 0
IsBefore today day = (str_lt day today ≡ true) × (str_lt today day ≡ false)

abbrev pub IsUpTo : String → String → Type 0
IsUpTo today day = (day ≡ today) ⊎ IsBefore today day

last_day_stays :
    (e f : String × ℕ) (m : Dict ℕ) → str_lt e.0 f.0 ≡ false → last_day e (f ∷ m) ≡ last_day e m
unfolding last_day
last_day_stays e f m t = ap (λ b. last_day (if b then f else e) m) t

last_day_moves :
    (e f : String × ℕ) (m : Dict ℕ) → str_lt e.0 f.0 ≡ true → last_day e (f ∷ m) ≡ last_day f m
unfolding last_day
last_day_moves e f m t = ap (λ b. last_day (if b then f else e) m) t

other_day : (today day : String) → IsUpTo today day → str_eq day today ≡ false → IsBefore today day
other_day today day (inl e) f = absurd (clash ((eq_iff day today).1 e) f)
  where
    clash : {b : Bool} → b ≡ true → b ≡ false → ⊥
    clash t f = cc
other_day today day (inr b) f = b

last_day_kept :
    (today : String) (c : ℕ) (m : Dict ℕ)
    → AllDays (IsUpTo today) m
    → find today m ≡ none
    → last_day (today, c) m ≡ (today, c)
unfolding find
last_day_kept today c [] h n = unfold last_day in refl
last_day_kept today c ((day, k) ∷ m) h n = elim (Bool-cases (str_eq day today)) [
  | inl t ↦ cc (rw t at n)
  | inr t ↦
      last_day_stays (today, c) (day, k) m (other_day today day h.0 t).1
      ∙ last_day_kept today c m h.1 (rw t at n)
]

last_day_found :
    (today : String) (e : String × ℕ) (c : ℕ) (m : Dict ℕ)
    → IsBefore today e.0
    → AllDays (IsUpTo today) m
    → IsUnique m
    → find today m ≡ some c
    → last_day e m ≡ (today, c)
unfolding find
last_day_found today e c [] b h u f = cc
last_day_found today e c ((day, k) ∷ m) b h u f = elim (Bool-cases (str_eq day today)) [
  | inl t ↦
      let key : day ≡ today = (eq_iff day today).0 t in
      let val : k ≡ c = some_inj (rw t at f) in
      last_day_moves e (day, k) m (subst (λ d. str_lt e.0 d ≡ true) (sym key) b.0)
      ∙ (ap₂ (λ d n. last_day (d, n) m) key val
          ∙ last_day_kept today c m h.1 (subst (λ d. find d m ≡ none) key u.0))
  | inr t ↦
      let d = other_day today day h.0 t in
      elim (Bool-cases (str_lt e.0 day)) [
        | inl l ↦
            last_day_moves e (day, k) m l ∙ last_day_found today (day, k) c m d h.1 u.1 (rw t at f)
        | inr l ↦ last_day_stays e (day, k) m l ∙ last_day_found today e c m b h.1 u.1 (rw t at f)
      ]
]
  where
    some_inj : {x y : ℕ} → some x ≡ some y → x ≡ y
    some_inj e = cc

count_of_found :
    (today : String) (c : ℕ) (m : Dict ℕ) → find today m ≡ some c → count_of today m ≡ c
unfolding count_of
count_of_found today c m f = rw (f, count_of) refl

-- The map has no day at all, or it has today.
abbrev pub HasToday : String → Dict ℕ → Type 0
HasToday today m = (m ≡ []) ⊎ ((c : ℕ) × (find today m ≡ some c))

last_cnt-count_of :
    (today : String) (m : Dict ℕ)
    → AllDays (IsUpTo today) m
    → IsUnique m
    → HasToday today m
    → last_cnt m ≡ count_of today m
unfolding last_cnt find
last_cnt-count_of today [] h u p = unfold count_of in refl
last_cnt-count_of today ((day, k) ∷ m) h u (inl e) = cc
last_cnt-count_of today ((day, k) ∷ m) h u (inr (c, f)) =
    (elim (Bool-cases (str_eq day today)) [
      | inl t ↦
          let key : day ≡ today = (eq_iff day today).0 t in
          ap (λ d. (last_day (d, k) m).1) key
          ∙ (ap (λ e. e.1) (last_day_kept today k m h.1 (subst (λ d. find d m ≡ none) key u.0))
              ∙ some_inj (rw t at f))
      | inr t ↦
          ap (λ e. e.1)
            (last_day_found today (day, k) c m (other_day today day h.0 t) h.1 u.1 (rw t at f))
    ])
    ∙ sym (count_of_found today c ((day, k) ∷ m) f)
  where
    some_inj : {x y : ℕ} → some x ≡ some y → x ≡ y
    some_inj e = cc

module _ (s : UrlsDays) (id : ℕ) (today : String) where
  abbrev url : String
  url = gen_fake_url_for_result id

  pub get_today_events_lem :
      AllDaysOf (IsUpTo today) s
      → All (λ (e : String × UrlDays). IsUnique e.1.day_visits) s
      → ((d : UrlDays) → find url s ≡ some d → HasToday today d.day_visits)
      → get_today_events s id ≡ visits url today s
  unfolding get_today_events
  get_today_events_lem h u p = elim (Option-cases (find url s)) [
    | inl e ↦ rw (e, get_today_events) (sym (visits-none url today s e))
    | inr (d, e) ↦
        rw (e, get_today_events)
          (last_cnt-count_of today d.day_visits
              (find-All (λ (e : String × UrlDays). AllDays (IsUpTo today) e.1.day_visits) url d s h
                e)
              (find-All (λ (e : String × UrlDays). IsUnique e.1.day_visits) url d s u e) (p d e)
            ∙ sym (visits_found url today d s e))
  ]
