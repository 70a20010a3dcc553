-- ===== src/Worker/FetchLoop/Stats.antt =====
-- src/worker/FetchLoop.cpp: what `_onResponse` counts and tells, against src/scheduler/default/Scheduler.cpp.
use contentv.Prelude.{◌≡◌, refl, ap, ◌∙◌, List, [], ◌∷◌, map, arith}
use contentv.Core.Records.{FetchResult, FetchStats, is_ok}
use contentv.Scheduler.Stats.{inc_stats}
use contentv.Worker.FetchLoop.{JobInfo, count_response, fetch_result, on_response}

-- The worker's counters after each response, and the results that it has told the scheduler.
pub run_responses : FetchStats → List JobInfo → FetchStats × List FetchResult
run_responses st [] = (st, [])
run_responses st (ji ∷ jis) =
    let r = on_response st ji in let rest = run_responses r.stats jis in (rest.0, r.told ∷ rest.1)

on_response-inc_stats :
    (st : FetchStats) (ji : JobInfo)
    → (on_response st ji).stats ≡ inc_stats st ((on_response st ji).told ∷ [])
unfolding on_response count_response fetch_result inc_stats is_ok
on_response-inc_stats st ji = ground arith

-- Worker and scheduler count alike: after any responses the worker's counters are what `_incStats`
-- of the scheduler makes of the results that the worker told it.
pub run_responses-inc_stats :
    (st : FetchStats) (jis : List JobInfo)
    → (run_responses st jis).0 ≡ inc_stats st (run_responses st jis).1
unfolding run_responses inc_stats
run_responses-inc_stats st [] = refl
run_responses-inc_stats st (ji ∷ jis) =
    let r = on_response st ji in
    run_responses-inc_stats r.stats jis
    ∙ (ap (λ x. inc_stats x (run_responses r.stats jis).1) (on_response-inc_stats st ji))

pub told-map :
    (st : FetchStats) (jis : List JobInfo) → (run_responses st jis).1 ≡ map fetch_result jis
unfolding run_responses on_response
told-map st [] = refl
told-map st (ji ∷ jis) = ap (λ l. fetch_result ji ∷ l) (told-map (on_response st ji).stats jis)
