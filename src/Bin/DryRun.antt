-- ===== src/Bin/DryRun.antt =====
-- src/bin/contentd/cli/Contentd.cpp: the exit code of a dry run, against the responses that the worker
-- gets.
use contentv.Prelude.{ℕ, ◌+◌, List, ◌++◌, length, keep, map}
use contentv.Core.Records.{FetchStats}
use contentv.Scheduler.Stats.{inc_stats}
use contentv.Worker.FetchLoop.{JobInfo, fetch_result}

-- The counters of a loop that has put some records into its queue and has no response yet.
abbrev pub fresh : ℕ → FetchStats
fresh pushed = record {
  pushed = pushed;
  success = 0;
  fail = 0;
  robots_success = 0;
  robots_fail = 0;
}

-- The number of responses with a success.
abbrev pub successes : List JobInfo → ℕ
successes jis = length (keep (λ (ji : JobInfo). ji.success) jis)

abbrev oks : FetchStats → ℕ
oks st = st.success + st.robots_success

-- The worker's counters after the responses `jis`, and the scheduler's after those and `more`.
module _ (pushed : ℕ) (jis more : List JobInfo) where
  abbrev counted : FetchStats
  counted = inc_stats (fresh pushed) (map fetch_result jis)

  abbrev told : FetchStats
  told = inc_stats (fresh 0) (map fetch_result (jis ++ more))
