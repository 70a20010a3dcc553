-- ===== src/Tests/RpcRuns.antt =====
-- The theorems of the scheduler's rpc at concrete inputs.
use contentv.Prelude.{◌≡◌, true, false, List, [], ◌∷◌}
use contentv.Scheduler.Rpc.{Delivery, lost, unanswered, answered}
use contentv.Scheduler.Rpc.Calls.{Op, try, fetched, run_client, run_direct, run_client_lem}
use contentv.Scheduler.Rpc.CallData.{
  Server, try_rpc, fetched_rpc, process, finish, try_request, fetched_request, instate, handle,
}
use contentv.Tests.Clients.{counter}
use contentv.Tests.LdbRuns.{page, robots}
use contentv.Tests.LoopRuns.{results}

abbrev calls : List (Delivery × Op)
calls =
    (answered, try (page ∷ robots ∷ []))
    ∷ (unanswered, fetched results)
    ∷ (lost, fetched results)
    ∷ (lost, try (page ∷ []))
    ∷ []

run_client_lem_example : run_client counter calls 0 ≡ run_direct counter calls 0
run_client_lem_example = run_client_lem counter calls 0

-- A request is processed, then the event of the other call data is dropped.
abbrev after_one : Server counter
after_one =
    handle counter true [] (record { rpc = try_rpc; status = process })
      (record { rpc = fetched_rpc; status = process } ∷ []) (try_request []) (instate counter 0)

abbrev after_two : Server counter
after_two =
    handle counter false (record { rpc = try_rpc; status = finish } ∷ [])
      (record { rpc = fetched_rpc; status = process })
      (record { rpc = try_rpc; status = process } ∷ []) (fetched_request []) after_one
