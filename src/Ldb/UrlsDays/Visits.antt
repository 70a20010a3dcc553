-- ===== src/Ldb/UrlsDays/Visits.antt =====
-- src/ldb/UrlsDays.h: what a merge does to the visits of a url on a day.
use contentv.Prelude.{
  ℕ, ◌+◌, ◌≡◌, refl, sym, ap, ◌∙◌, subst, String, [], ◌∷◌, none, some, false, arith, All, str_eq,
  eq_iff, if◌then◌else◌, Bool-cases, inl, inr,
}
use contentv.Prelude.Dict.{Dict, find, insert, IsUnique, find-insert}
use contentv.Core.Time.{Tp}
use contentv.Core.FreqMap.{count_of, merge_counts}
use contentv.Core.FreqMap.Merge.{count_of-merge_counts}
use contentv.Ldb.UrlsDays.{
  Calendar, UrlDays, UrlsDays, to_utsv, days_at, get_utsv, merge_days, merge,
}
use contentv.Ldb.UrlsDays.Counts.{
  visits, days_at-insert, days_at-none, is_old, count_of-check_clean,
}

module _ (cal : Calendar) where
  merge_days-visits :
      (u : String) (m : Dict ℕ) (e : UrlDays) (now : Tp) (day : String)
      → IsUnique e.day_visits
      → is_old cal now day ≡ false
      → count_of day (merge_days cal (record { url = u; day_visits = m }) e now).day_visits
        ≡ count_of day m + count_of day e.day_visits
  unfolding merge_days count_of find
  merge_days-visits u [] e now day q h = omega arith
  merge_days-visits u (x ∷ xs) e now day q h = ground (
    arith,
    h,
    count_of-check_clean cal now day (merge_counts (x ∷ xs) e.day_visits),
    count_of-merge_counts day (x ∷ xs) e.day_visits q,
  )

  visits-insert :
      (k url day : String) (d : UrlDays) (s : UrlsDays)
      → visits url day (insert k d s)
        ≡ (if str_eq k url then count_of day d.day_visits else visits url day s)
  unfolding visits
  visits-insert k url day d s =
      rw days_at-insert (elim (Bool-cases (str_eq k url)) [ inl e ↦ rw e refl | inr e ↦ rw e refl ])

  -- Every url and every day stands once.
  abbrev pub IsTable : UrlsDays → Type 0
  IsTable s = IsUnique s × All (λ (e : String × UrlDays). IsUnique e.1.day_visits) s

  pub visits_nil : (url day : String) → visits url day [] ≡ 0
  unfolding visits days_at count_of find
  visits_nil url day = refl

  visits_key :
      (k url day : String) (s : UrlsDays)
      → k ≡ url
      → count_of day (days_at k s).day_visits ≡ visits url day s
  unfolding visits
  visits_key k url day s e = ap (λ v. visits v day s) e

  visits_cons :
      (k url day : String) (e : UrlDays) (rest : UrlsDays)
      → find k rest ≡ none
      → visits url day ((k, e) ∷ rest)
        ≡ (if str_eq k url then count_of day e.day_visits else 0) + visits url day rest
  unfolding visits days_at find count_of
  visits_cons k url day e rest n = elim (Bool-cases (str_eq k url)) [
    | inl t ↦
        let m : find url rest ≡ none = subst (λ v. find v rest ≡ none) ((eq_iff k url).0 t) n in
        ground (arith, t, m)
    | inr t ↦ ground (arith, t)
  ]

  -- The merge of two tables adds up the visits of each url on each day that is not too old to be
  -- kept at `now`, when every url and day stands once in the table that is merged in.
  pub visits-merge :
      (s a : UrlsDays) (now : Tp) (url day : String)
      → IsTable a
      → is_old cal now day ≡ false
      → visits url day (merge cal s a now) ≡ visits url day s + visits url day a
  unfolding merge
  visits-merge s [] now url day t h = omega (arith, visits_nil url day)
  visits-merge s ((k, e) ∷ a) now url day t h =
      let d = merge_days cal (days_at k s) e now in
      let here = merge_days-visits (days_at k s).url (days_at k s).day_visits e now day (t.1.0) h in
      let rest = visits-merge (insert k d s) a now url day (t.0.1, t.1.1) h in
      rest
      ∙ rw (visits-insert, visits_cons k url day e a (t.0.0))
          (elim (Bool-cases (str_eq k url)) [
            | inl f ↦ rw f (omega (arith, here, visits_key k url day s ((eq_iff k url).0 f)))
            | inr f ↦ rw f (omega arith)
          ])

  find-merge_other :
      (s a : UrlsDays) (now : Tp) (url : String)
      → find url a ≡ none
      → find url (merge cal s a now) ≡ find url s
  unfolding merge find
  find-merge_other s [] now url n = refl
  find-merge_other s ((k, e) ∷ a) now url n = elim (Bool-cases (str_eq k url)) [
    | inl f ↦ cc (rw f at n)
    | inr f ↦
        find-merge_other (insert k (merge_days cal (days_at k s) e now) s) a now url (rw f at n)
        ∙ (find-insert k url _ s ∙ rw f refl)
  ]

  merge_days_new :
      (k : String) (s : UrlsDays) (e : UrlDays) (now : Tp)
      → find k s ≡ none
      → merge_days cal (days_at k s) e now ≡ record { url = ""; day_visits = e.day_visits }
  unfolding merge_days
  merge_days_new k s e now n = ap (λ x. merge_days cal x e now) (days_at-none k s n)

  found_same : (d e : UrlDays) → some d ≡ some e → d ≡ e
  found_same d e h = cc

  find-merge_new :
      (s a : UrlsDays) (now : Tp) (url : String) (e : UrlDays)
      → IsUnique a
      → find url s ≡ none
      → find url a ≡ some e
      → find url (merge cal s a now) ≡ some (record { url = ""; day_visits = e.day_visits })
  unfolding merge find
  find-merge_new s [] now url e u n f = cc
  find-merge_new s ((k, d) ∷ a) now url e u n f = elim (Bool-cases (str_eq k url)) [
    | inl t ↦
        let key : k ≡ url = (eq_iff k url).0 t in
        let m : find url a ≡ none = subst (λ v. find v a ≡ none) key u.0 in
        let q : d ≡ e = found_same d e (rw t at f) in
        find-merge_other (insert k (merge_days cal (days_at k s) d now) s) a now url m
        ∙ ((find-insert k url _ s ∙ rw t refl)
            ∙ ap some (
                merge_days_new k s d now (subst (λ v. find v s ≡ none) (sym key) n)
                ∙ ap (λ x. record { url = ""; day_visits = x.day_visits }) q))
    | inr t ↦
        find-merge_new (insert k (merge_days cal (days_at k s) d now) s) a now url e u.1
          ((find-insert k url _ s ∙ rw t refl) ∙ n) (rw t at f)
  ]

  -- A url that the table did not have gets its days in the merge, but not its name: `getUTSV` then
  -- returns for it the statistics of the merged table with the empty text in place of the url.
  pub get_utsv-merge_new :
      (s a : UrlsDays) (now : Tp) (url : String) (e : UrlDays)
      → IsTable a
      → find url s ≡ none
      → find url a ≡ some e
      → get_utsv cal (merge cal s a now) url ≡ some (to_utsv cal "" e.day_visits)
  unfolding get_utsv
  get_utsv-merge_new s a now url e t n f = rw (find-merge_new s a now url e t.0 n f, get_utsv) refl
