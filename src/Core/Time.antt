-- ===== src/Core/Time.antt =====
-- src/core/Types.h: instants and durations.
use contentv.Prelude.{ℕ, ◌-◌, ◌/◌, ◌≤◌, ◌≡◌, Bool, false, arith, ltb}

-- A `time_point<system_clock>`, as nanoseconds since the epoch.
abbrev pub Tp : Type 0
Tp = ℕ

-- `duration_cast` to seconds, hours and days. A difference `now - tp` that is negative in the
-- source is 0 here; it is only ever tested by `> d` with d at least 0 or by `>= d` with d at least
-- 1, and both tests give the same for a negative difference as for 0.
abbrev pub secs : ℕ → ℕ
secs d = d / 1000000000

abbrev pub hours : ℕ → ℕ
hours d = d / 3600000000000

abbrev pub days : ℕ → ℕ
days d = d / 86400000000000

-- `duration_cast<DurationSec>(now - tp) > window`
abbrev pub is_expired : ℕ → Tp → Tp → Bool
is_expired window now tp = ltb window (secs (now - tp))

pub is_expired_mono :
    (window now s t : ℕ) → s ≤ t → is_expired window now s ≡ false → is_expired window now t ≡ false
is_expired_mono window now s t h e = ground arith

-- What has expired stays expired as time goes on.
pub is_expired_later :
    (window now later t : ℕ)
    → now ≤ later
    → is_expired window later t ≡ false
    → is_expired window now t ≡ false
is_expired_later window now later t h e = ground arith
