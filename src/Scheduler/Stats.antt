-- ===== src/Scheduler/Stats.antt =====
-- src/scheduler/default/Scheduler.cpp: the counters of fetch results.
use contentv.Prelude.{suc, List, [], ◌∷◌, if◌then◌else◌}
use contentv.Core.Records.{FetchResult, FetchStats, is_robots, is_ok}

unfoldable pub inc_stats : FetchStats → List FetchResult → FetchStats
unfolding is_robots is_ok
inc_stats st [] = st
inc_stats st (r ∷ rs) =
    inc_stats
      (if is_ok r
        then (if is_robots r.gfq
            then record st { robots_success = suc st.robots_success }
            else record st { success = suc st.success })
        else (if is_robots r.gfq
            then record st { robots_fail = suc st.robots_fail }
            else record st { fail = suc st.fail }))
      rs
