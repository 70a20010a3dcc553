-- ===== src/Core/Window/Laws.antt =====
-- src/core/TpSlidWin.cpp: the counter against the list of all its events.
use contentv.Prelude.{
  ℕ, ◌≤◌, ◌≡◌, refl, ap, subst, ◌∙◌, All-append, List, [], ◌∷◌, ◌++◌, arith, length, All,
  All-map_imp,
}
use contentv.Core.Time.{Tp}
use contentv.Core.Sorted.{
  IsSorted, live, drop_while-live, live-live, live-IsSorted, snoc-IsSorted, push-live,
}
use mathlib.Core.List.{append-nil, append_assoc}
use contentv.Core.Window.{TpSlidWin, new, check_clean, size, inc}

abbrev pub same : Tp → Tp
same t = t

-- The counter of `window` seconds holds what is live of the events `h`, all of them before `now`.
pub record Tracks (window : ℕ) (h : List Tp) (now : Tp) (w : TpSlidWin) : Type 0 where
  pub length_ok : w.window ≡ window
  pub holds : w.q ≡ live window now same h
  pub ordered : IsSorted same h
  pub past : All (λ t. t ≤ now) h

pub new-Tracks : (window : ℕ) (now : Tp) → Tracks window [] now (new window)
unfolding new
new-Tracks window now = record { length_ok = refl; holds = refl; ordered = tt; past = tt }

module _ (window : ℕ) (h : List Tp) (now later : Tp) (w : TpSlidWin) where
  pub check_clean-Tracks :
      now ≤ later → Tracks window h now w → Tracks window h later (check_clean w later)
  unfolding check_clean
  check_clean-Tracks le t = record {
    length_ok = t.length_ok;
    holds =
        rw (t.length_ok, t.holds)
          (drop_while-live window later same _ (live-IsSorted window now same h t.ordered)
            ∙ live-live window now later same h le);
    ordered = t.ordered;
    past = All-map_imp (λ x. x ≤ now) (λ x. x ≤ later) h (λ x p. omega arith) t.past;
  }

  pub inc-Tracks :
      now ≤ later → Tracks window h now w → Tracks window (h ++ later ∷ []) later (inc w later)
  unfolding inc check_clean
  inc-Tracks le t = record {
    length_ok = t.length_ok;
    holds = rw (t.length_ok, t.holds) (push-live window now later same h later le t.ordered past');
    ordered = snoc-IsSorted same h later t.ordered past';
    past = All-append (λ x. x ≤ later) h (later ∷ []) past' (omega arith);
  }
    where
      past' : All (λ x. x ≤ later) h
      past' = All-map_imp (λ x. x ≤ now) (λ x. x ≤ later) h (λ x p. omega arith) t.past

-- `inc` at each of the times, in turn.
pub run_inc : TpSlidWin → List Tp → TpSlidWin
run_inc w [] = w
run_inc w (t ∷ ts) = run_inc (inc w t) ts

-- The times of the calls start at `now` and do not fall.
abbrev pub Rising : Tp → List Tp → Type 0
Rising now [] = Unit
Rising now (t ∷ ts) = (now ≤ t) × Rising t ts

abbrev pub last_of : Tp → List Tp → Tp
last_of now [] = now
last_of now (t ∷ ts) = last_of t ts

run_inc-Tracks :
    (window : ℕ) (h : List Tp) (now : Tp) (w : TpSlidWin) (ts : List Tp)
    → Rising now ts
    → Tracks window h now w
    → Tracks window (h ++ ts) (last_of now ts) (run_inc w ts)
unfolding run_inc
run_inc-Tracks window h now w [] r t = rw append-nil t
run_inc-Tracks window h now w (x ∷ ts) r t =
    subst (λ l. Tracks window l (last_of x ts) (run_inc (inc w x) ts)) (append_assoc h (x ∷ []) ts)
      (run_inc-Tracks window (h ++ x ∷ []) x (inc w x) ts r.1 (inc-Tracks window h now x w r.0 t))

-- For clock readings that do not fall: after `inc` at each of the times `ts`, the first at `now`
-- or later, `size` at a time `at` that is not before the last of them is the number of those times
-- that are at most `window` seconds old then, counted over all of `ts` and not just over what the
-- queue kept.
size-run_inc :
    (window : ℕ) (now at : Tp) (ts : List Tp)
    → Rising now ts
    → last_of now ts ≤ at
    → (size (run_inc (new window) ts) at).1 ≡ length (live window at same ts)
unfolding size
size-run_inc window now at ts r le =
    let t =
      check_clean-Tracks window ts (last_of now ts) at (run_inc (new window) ts) le
        (run_inc-Tracks window [] now (new window) ts r (new-Tracks window now)) in
    ap length t.holds
