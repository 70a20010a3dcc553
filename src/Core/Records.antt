-- ===== src/Core/Records.antt =====
-- src/core/GFQRecord.h and .cpp, FetchResult.h and .cpp, FetchStats.h and .cpp: what the scheduler
-- and the worker tell each other.
pub mod Pb
use contentv.Prelude.{ℕ, String, Bool, true, false, ◌&&◌, ◌==◌}
use contentv.Prelude.Text.{ends_with}
use contentv.Core.Attempts.{AttemptStatus}

-- A record of the global fetch queue. `attempt_ts` is a number of seconds since the epoch.
pub record GfqRecord : Type 0 where
  pub url : String
  pub attempt_ts : ℕ

abbrev pub robots_postfix : String
robots_postfix = "/robots.txt"

unfoldable pub is_robots : GfqRecord → Bool
unfolding ends_with
is_robots gfq = ends_with gfq.url robots_postfix

pub record FetchResult : Type 0 where
  pub gfq : GfqRecord
  pub status : AttemptStatus
  pub error_str : String
  pub content : String

abbrev pub is_fetched : AttemptStatus → Bool
is_fetched AttemptStatus.fetched = true
is_fetched _ = false

unfoldable pub is_ok : FetchResult → Bool
is_ok r = is_fetched r.status

pub record FetchStats : Type 0 where
  pub pushed : ℕ
  pub success : ℕ
  pub fail : ℕ
  pub robots_success : ℕ
  pub robots_fail : ℕ

-- `operator==` does not compare `pushed`.
unfoldable pub same_stats : FetchStats → FetchStats → Bool
same_stats a b =
    a.success == b.success
    && (a.fail == b.fail
        && (a.robots_success == b.robots_success && a.robots_fail == b.robots_fail))
