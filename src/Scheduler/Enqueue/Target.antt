-- ===== src/Scheduler/Enqueue/Target.antt =====
-- src/scheduler/default/EnqueueLoop.cpp: how many urls are enqueued now.
use contentv.Prelude.{
  ℕ, ◌-◌, ◌/◌, ◌≤◌, ◌<◌, ◌≡◌, refl, ap, ◌∙◌, arith, leb, ◌==◌, if◌then◌else◌, Bool-cases, inl, inr,
}
use contentv.Prelude.Int.{ℤ, pos, negsuc, pos_part, ◌-ℤ◌, quot_ℤ}
use contentv.Scheduler.Enqueue.{calc_hour_target, calc_to_enqueue_now}

-- The part of what is left of the day that this hour takes: all of it in the last hour.
abbrev pub share : ℕ → ℕ → ℕ
share left hours_left = if hours_left == 0 then left else left / hours_left

calc_hour_target_ok :
    (target_day finished hours_left : ℕ)
    → finished ≤ target_day
    → calc_hour_target target_day (pos finished) hours_left
      ≡ pos (share (target_day - finished) hours_left)
unfolding calc_hour_target ◌-ℤ◌ quot_ℤ
calc_hour_target_ok t f h le = ground (arith, le)

calc_hour_target_over :
    (target_day finished hours_left : ℕ)
    → target_day < finished
    → pos_part (calc_hour_target target_day (pos finished) hours_left) ≡ 0
unfolding calc_hour_target ◌-ℤ◌ quot_ℤ
calc_hour_target_over t f h lt = ground (arith, lt)

calc_to_enqueue_now-of :
    (target_day finished running hours_left : ℕ) (g : ℤ)
    → calc_hour_target target_day (pos finished) hours_left ≡ g
    → calc_to_enqueue_now target_day (pos finished) (pos running) hours_left
      ≡ pos (pos_part g - running)
unfolding calc_to_enqueue_now ◌-ℤ◌
calc_to_enqueue_now-of t f p h (pos n) e = rw e (ground arith)
calc_to_enqueue_now-of t f p h (negsuc n) e = rw e (ground arith)

share_over : (t f h p : ℕ) → t < f → share (t - f) h - p ≡ 0
share_over t f h p lt = let z : t - f ≡ 0 = omega arith in rw z (ground arith)

-- `_calcToEnqueueNow`, when no fewer urls are enqueued today than finished: this hour's share of
-- the day's target that is not finished yet, less what is in progress, and 0 when that is negative
-- or the day's target is exceeded.
pub calc_to_enqueue_now_lem :
    (target_day finished running hours_left : ℕ)
    → calc_to_enqueue_now target_day (pos finished) (pos running) hours_left
      ≡ pos (share (target_day - finished) hours_left - running)
calc_to_enqueue_now_lem t f p h = elim (Bool-cases (leb f t)) [
  | inl e ↦ calc_to_enqueue_now-of t f p h _ (calc_hour_target_ok t f h (ground arith))
  | inr e ↦
      let z : share (t - f) h - p ≡ 0 = share_over t f h p (ground arith) in
      let w = calc_hour_target_over t f h (ground arith) in
      calc_to_enqueue_now-of t f p h _ refl ∙ ap pos (omega (arith, z, w))
]
