-- ===== src/Core/Window.antt =====
-- src/core/TpSlidWin.h and TpSlidWin.cpp: counts the events of the last `window` seconds.
pub mod Laws
use contentv.Prelude.{ℕ, ◌≡◌, List, [], ◌∷◌, ◌++◌, length, drop_while}
use contentv.Core.Time.{Tp, is_expired}

-- `q` is the queue, its front first; `window` is in seconds.
pub record TpSlidWin : Type 0 where
  pub q : List Tp
  pub window : ℕ

unfoldable pub new : ℕ → TpSlidWin
new window = record { q = []; window = window }

pub check_clean : TpSlidWin → Tp → TpSlidWin
check_clean w now = record w { q = drop_while (is_expired w.window now) w.q }

-- `size(now)` cleans the queue as well.
unfoldable pub size : TpSlidWin → Tp → TpSlidWin × ℕ
unfolding check_clean
size w now = let w' = check_clean w now in (w', length w'.q)

unfoldable pub inc : TpSlidWin → Tp → TpSlidWin
unfolding check_clean
inc w now = check_clean (record w { q = w.q ++ now ∷ [] }) now
