-- ===== src/Core/FreqMap/Sliding.antt =====
-- src/core/UrlFreqMap.cpp: the map against the list of all the visits that it was ever given.
use contentv.Prelude.{
  ℕ, ◌≤◌, ◌<◌, ◌≡◌, refl, ap, subst, ◌∙◌, String, List, [], ◌∷◌, ◌++◌, arith, All, All-append,
  All-map_imp, drop_while,
}
use mathlib.Core.List.{append-nil, append_assoc}
use contentv.Prelude.Dict.{Dict}
use contentv.Core.Time.{Tp, is_expired}
use contentv.Core.Sorted.{IsSorted, live, push-live, snoc-IsSorted}
use contentv.Core.FreqMap.{
  UrlTpStat, UrlFreqMap, new, count_of, sub_count, cleanup, check_cleanup, insert_visits_pack,
}
use contentv.Core.FreqMap.Counts.{total, IsExact, new-IsExact, insert_visits_pack-IsExact}

abbrev pub tp_of : UrlTpStat → Tp
tp_of s = s.tp

-- The queue that `cleanup` leaves.
cleanup-drop_while :
    (window now : ℕ) (q : List UrlTpStat) (m : Dict ℕ)
    → (cleanup window now q m).0 ≡ drop_while (λ s. is_expired window now s.tp) q
unfolding cleanup
cleanup-drop_while window now [] m = refl
cleanup-drop_while window now (s ∷ q) m =
    ground (arith, cleanup-drop_while window now q (sub_count s m))

-- A call of `insertVisitsPack`.
pub record Push : Type 0 where
  pub pack : UrlTpStat
  pub now : Tp

pub run_push : UrlFreqMap → List Push → UrlFreqMap
run_push f [] = f
run_push f (p ∷ ps) = run_push (insert_visits_pack f p.pack p.now) ps

abbrev pub packs : List Push → List UrlTpStat
packs [] = []
packs (p ∷ ps) = p.pack ∷ packs ps

abbrev pub last_now : Tp → List Push → Tp
last_now now [] = now
last_now now (p ∷ ps) = last_now p.now ps

-- The calls are made at times that do not fall, with positive counts and visits in order of time.
abbrev pub InOrder : Tp → Tp → List Push → Type 0
InOrder now latest [] = Unit
InOrder now latest (p ∷ ps) =
    (now ≤ p.now) × (latest ≤ p.pack.tp) × (0 < p.pack.cnt) × InOrder p.now p.pack.tp ps

pub record Tracks (window : ℕ) (h : List UrlTpStat) (now latest : Tp) (f : UrlFreqMap)
    : Type 0 where
  pub length_ok : f.window ≡ window
  pub holds : f.uts_q ≡ live window now tp_of h
  pub ordered : IsSorted tp_of h
  pub past : All (λ (s : UrlTpStat). s.tp ≤ latest) h
  pub exact : IsExact f

module _ (window : ℕ) (h : List UrlTpStat) (now latest : Tp) (f : UrlFreqMap) (p : Push) where
  push-Tracks :
      now ≤ p.now
      → latest ≤ p.pack.tp
      → 0 < p.pack.cnt
      → Tracks window h now latest f
      → Tracks window (h ++ p.pack ∷ []) p.now p.pack.tp (insert_visits_pack f p.pack p.now)
  unfolding insert_visits_pack check_cleanup
  push-Tracks le later pos t = record {
    length_ok = t.length_ok;
    holds =
        cleanup-drop_while f.window p.now (f.uts_q ++ p.pack ∷ []) _
        ∙ rw (t.length_ok, t.holds) (push-live window now p.now tp_of h p.pack le t.ordered past');
    ordered = snoc-IsSorted tp_of h p.pack t.ordered past';
    past = All-append (λ (s : UrlTpStat). s.tp ≤ p.pack.tp) h (p.pack ∷ []) past' (omega arith);
    exact = insert_visits_pack-IsExact f p.pack p.now pos t.exact;
  }
    where
      past' : All (λ (s : UrlTpStat). s.tp ≤ p.pack.tp) h
      past' =
          All-map_imp (λ (s : UrlTpStat). s.tp ≤ latest) (λ s. s.tp ≤ p.pack.tp) h
            (λ x q. omega arith) t.past

run_push-Tracks :
    (window : ℕ) (h : List UrlTpStat) (now latest : Tp) (f : UrlFreqMap) (ps : List Push)
    → InOrder now latest ps
    → Tracks window h now latest f
    → (latest' : Tp) × Tracks window (h ++ packs ps) (last_now now ps) latest' (run_push f ps)
unfolding run_push
run_push-Tracks window h now latest f [] r t = (latest, rw append-nil t)
run_push-Tracks window h now latest f (p ∷ ps) r t =
    let rest =
      run_push-Tracks window (h ++ p.pack ∷ []) p.now p.pack.tp (insert_visits_pack f p.pack p.now)
        ps r.3 (push-Tracks window h now latest f p r.0 r.1 r.2 t) in
    (
      rest.0,
      subst
          (λ l.
            Tracks window l (last_now p.now ps) rest.0
              (run_push (insert_visits_pack f p.pack p.now) ps))
          (append_assoc h (p.pack ∷ []) (packs ps)) rest.1,
    )

-- Start from an empty map and call `insertVisitsPack` any number of times, with positive counts,
-- visits in order of time and clock readings that do not fall. Then the map's count of every url
-- is the sum of the counts, over all packs ever given, of its packs that are at most `window`
-- seconds old at the last call.
pub count-run_push :
    (window : ℕ) (now latest : Tp) (ps : List Push) (u : String)
    → InOrder now latest ps
    → count_of u (run_push (new window) ps).url_freq
      ≡ total u (live window (last_now now ps) tp_of (packs ps))
unfolding new
count-run_push window now latest ps u r =
    let t =
      (run_push-Tracks window [] now latest (new window) ps r (record {
        length_ok = refl;
        holds = refl;
        ordered = tt;
        past = tt;
        exact = new-IsExact window;
      })).1 in
    t.exact.exact u ∙ ap (total u) t.holds
