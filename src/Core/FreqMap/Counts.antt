-- ===== src/Core/FreqMap/Counts.antt =====
-- src/core/UrlFreqMap.cpp: the map of frequencies against the queue.
use contentv.Prelude.{
  ℕ, ◌+◌, ◌-◌, ◌<◌, ◌≡◌, refl, String, List, [], ◌∷◌, ◌++◌, arith, str_eq, eq_iff, leb,
  if◌then◌else◌, All, All-append, Bool-cases, Option-cases, inl, inr,
}
use contentv.Prelude.Dict.{
  Dict, find, insert, erase, IsUnique, find-insert, find-erase, insert-IsUnique, erase-IsUnique,
}
use contentv.Core.Time.{Tp, secs}
use contentv.Core.FreqMap.{
  UrlTpStat, UrlFreqMap, new, count_of, add_count, sub_count, cleanup, check_cleanup,
  insert_visits_pack,
}

-- The visits of the url in the queue.
unfoldable pub total : String → List UrlTpStat → ℕ
total u [] = 0
total u (s ∷ q) = (if str_eq s.url u then s.cnt else 0) + total u q

pub total-append : (u : String) (q r : List UrlTpStat) → total u (q ++ r) ≡ total u q + total u r
unfolding total
total-append u [] r = omega arith
total-append u (s ∷ q) r = omega (arith, total-append u q r)

pub total-snoc :
    (u : String) (q : List UrlTpStat) (s : UrlTpStat)
    → total u (q ++ s ∷ []) ≡ total u q + (if str_eq s.url u then s.cnt else 0)
unfolding total
total-snoc u q s = omega (arith, total-append u q (s ∷ []))

pub count_of-add_count :
    (u v : String) (c : ℕ) (m : Dict ℕ)
    → count_of v (add_count u c m) ≡ (if str_eq u v then count_of v m + c else count_of v m)
unfolding count_of add_count
count_of-add_count u v c m = ground (arith, eq_iff u v, find-insert u v (count_of u m + c) m)

pub count_of-sub_count :
    (s : UrlTpStat) (v : String) (m : Dict ℕ)
    → count_of v (sub_count s m) ≡ (if str_eq s.url v then count_of v m - s.cnt else count_of v m)
unfolding count_of sub_count
count_of-sub_count s v m = elim (Option-cases (find s.url m)) [
  | inl e ↦ ground (arith, eq_iff s.url v, e)
  | inr (c, e) ↦
      ground (arith, eq_iff s.url v, e, find-insert s.url v (c - s.cnt) m, find-erase s.url v m)
]

abbrev pub PositiveEntries : Dict ℕ → Type 0
PositiveEntries = All (λ e. 0 < e.1)

abbrev pub PositiveCounts : List UrlTpStat → Type 0
PositiveCounts = All (λ (s : UrlTpStat). 0 < s.cnt)

pub insert-PositiveEntries :
    (k : String) (c : ℕ) (m : Dict ℕ) → 0 < c → PositiveEntries m → PositiveEntries (insert k c m)
unfolding insert
insert-PositiveEntries k c [] p h = (p, tt)
insert-PositiveEntries k c ((j, w) ∷ m) p h = ground (arith, insert-PositiveEntries k c m p h.1)

erase-PositiveEntries : (k : String) (m : Dict ℕ) → PositiveEntries m → PositiveEntries (erase k m)
unfolding erase
erase-PositiveEntries k [] h = tt
erase-PositiveEntries k ((j, w) ∷ m) h = ground (arith, erase-PositiveEntries k m h.1)

-- A map without duplicate keys and without an entry that is 0.
pub record IsClean (m : Dict ℕ) : Type 0 where
  pub unique : IsUnique m
  pub positive : PositiveEntries m

pub add_count-IsClean :
    (u : String) (c : ℕ) (m : Dict ℕ) → 0 < c → IsClean m → IsClean (add_count u c m)
unfolding add_count
add_count-IsClean u c m p h = record {
  unique = insert-IsUnique u _ m h.unique;
  positive = insert-PositiveEntries u _ m (omega arith) h.positive;
}

pub sub_count-IsClean : (s : UrlTpStat) (m : Dict ℕ) → IsClean m → IsClean (sub_count s m)
unfolding sub_count
sub_count-IsClean s m h = elim (Option-cases (find s.url m)) [
  | inl e ↦ rw (e, sub_count) h
  | inr (c, e) ↦
      rw (e, sub_count)
        (elim (Bool-cases (leb c s.cnt)) [
          | inl t ↦ rw t (record {
            unique = erase-IsUnique s.url m h.unique;
            positive = erase-PositiveEntries s.url m h.positive;
          })
          | inr t ↦ rw t (record {
            unique = insert-IsUnique s.url _ m h.unique;
            positive = insert-PositiveEntries s.url _ m (ground arith) h.positive;
          })
        ])
]

-- Every url's frequency is the sum of its counts in the queue, and the map has an entry for
-- exactly the urls whose sum is not 0.
pub record IsExact (f : UrlFreqMap) : Type 0 where
  pub clean : IsClean f.url_freq
  pub counted : PositiveCounts f.uts_q
  pub exact : (u : String) → count_of u f.url_freq ≡ total u f.uts_q

popped :
    (s : UrlTpStat) (q : List UrlTpStat) (m : Dict ℕ)
    → ((u : String) → count_of u m ≡ total u (s ∷ q))
    → (u : String) → count_of u (sub_count s m) ≡ total u q
unfolding total
popped s q m h u = ground (arith, h u, count_of-sub_count s u m)

cleanup-exact :
    (window now : ℕ) (q : List UrlTpStat) (m : Dict ℕ)
    → IsClean m
    → PositiveCounts q
    → ((u : String) → count_of u m ≡ total u q)
    → IsClean (cleanup window now q m).1
      × PositiveCounts (cleanup window now q m).0
      × ((u : String) → count_of u (cleanup window now q m).1 ≡ total u (cleanup window now q m).0)
unfolding cleanup
cleanup-exact window now [] m c p h = (c, p, h)
cleanup-exact window now (s ∷ q) m c p h = elim (Bool-cases (leb (secs (now - s.tp)) window)) [
  | inl e ↦ rw e (c, p, h)
  | inr e ↦
      rw e
        (cleanup-exact window now q (sub_count s m) (sub_count-IsClean s m c) p.1 (popped s q m h))
]

pub check_cleanup-IsExact : (f : UrlFreqMap) (now : Tp) → IsExact f → IsExact (check_cleanup f now)
unfolding check_cleanup
check_cleanup-IsExact f now h =
    let r = cleanup-exact f.window now f.uts_q f.url_freq h.clean h.counted h.exact in
    record { clean = r.0; counted = r.1; exact = r.2 }

pub new-IsExact : (window : ℕ) → IsExact (new window)
unfolding new count_of find total
new-IsExact window = record {
  clean = record { unique = tt; positive = tt };
  counted = tt;
  exact = λ u. refl;
}

-- `insertVisitsPack` of a positive count keeps the map exact, whatever it drops from the window.
pub insert_visits_pack-IsExact :
    (f : UrlFreqMap) (s : UrlTpStat) (now : Tp)
    → 0 < s.cnt
    → IsExact f
    → IsExact (insert_visits_pack f s now)
unfolding insert_visits_pack
insert_visits_pack-IsExact f s now p h = check_cleanup-IsExact _ now (record {
  clean = add_count-IsClean s.url s.cnt f.url_freq p h.clean;
  counted = All-append (λ (t : UrlTpStat). 0 < t.cnt) f.uts_q (s ∷ []) h.counted (p, tt);
  exact = pushed;
})
  where
    pushed :
        (u : String) → count_of u (add_count s.url s.cnt f.url_freq) ≡ total u (f.uts_q ++ s ∷ [])
    pushed u =
        ground
          (arith, h.exact u, count_of-add_count s.url u s.cnt f.url_freq, total-snoc u f.uts_q s)
