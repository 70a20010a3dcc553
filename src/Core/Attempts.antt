-- ===== src/Core/Attempts.antt =====
-- src/core/CrawlAttempts.h and .cpp: the last ten attempts to fetch one url.
pub mod History
pub mod Dump
use contentv.Prelude.{
  ℕ, zero, suc, ◌<◌, String, List, [], ◌∷◌, ◌++◌, Option, none, some, Bool, true, false, ◌||◌, ltb,
  ◌==◌, length, get_elem?, last?, if◌then◌else◌,
}
use contentv.Prelude.Result.{Result, ok, throws}
use contentv.Core.Time.{Tp}

-- `CrawlAttemptsPb::AttemptStatus`. The enumerations of proto3 are open: a stored number outside
-- the list is kept as it is.
pub data AttemptStatus : Type 0 where
  enqueued pending fetched curl_err status_4xx status_5xx : AttemptStatus
  unrecognized : ℕ → AttemptStatus

pub record CrawlAttempt : Type 0 where
  pub tp : Tp
  pub status : AttemptStatus

-- The oldest attempt first.
abbrev pub CrawlAttempts : Type 0
CrawlAttempts = List CrawlAttempt

abbrev pub last_store_attempts : ℕ
last_store_attempts = 10

-- `while (size() > LAST_STORE_ATTEMPTS) erase(begin())`
unfoldable pub trim : CrawlAttempts → CrawlAttempts
trim [] = []
trim (x ∷ xs) = if ltb last_store_attempts (length (x ∷ xs)) then trim xs else x ∷ xs

-- `round` is `misc::round_secs`. The time that `add` returns is not the one that it stores.
unfoldable pub add : (Tp → Tp) → CrawlAttempts → Tp → CrawlAttempts × Tp
unfolding trim
add round attempts tp = (trim (attempts ++ record { tp = round tp; status = enqueued } ∷ []), tp)

-- The first attempt at that time gets the status; `false` if there is none.
unfoldable pub set_status : CrawlAttempts → Tp → AttemptStatus → CrawlAttempts × Bool
set_status [] tp status = ([], false)
set_status (a ∷ attempts) tp status =
    let rest = set_status attempts tp status in
    if a.tp == tp then (record a { status = status } ∷ attempts, true) else (a ∷ rest.0, rest.1)

unfoldable pub get_last : CrawlAttempts → Result CrawlAttempt
get_last attempts = elim (last? attempts) [
  | none ↦ throws "CrawlAttempts::getLast on empty"
  | some a ↦ ok a
]

-- A write through the reference that `getLast` returns.
unfoldable pub set_last : AttemptStatus → CrawlAttempts → CrawlAttempts
set_last status [] = []
set_last status (a ∷ []) = record a { status = status } ∷ []
set_last status (a ∷ b ∷ attempts) = a ∷ set_last status (b ∷ attempts)

abbrev pub is_4xx_5xx : AttemptStatus → Bool
is_4xx_5xx status_4xx = true
is_4xx_5xx status_5xx = true
is_4xx_5xx _ = false

-- The loop of `last4xx5xxCount` from index `i` down to 1.
unfoldable pub count_from : ℕ → CrawlAttempts → ℕ
count_from zero attempts = 0
count_from (suc i) attempts = elim (get_elem? attempts (suc i)) [
  | none ↦ 0
  | some a ↦ if is_4xx_5xx a.status then suc (count_from i attempts) else 0
]

unfoldable pub last_4xx_5xx_count : CrawlAttempts → ℕ
unfolding count_from
last_4xx_5xx_count [] = 0
last_4xx_5xx_count (a ∷ attempts) = count_from (length attempts) (a ∷ attempts)
