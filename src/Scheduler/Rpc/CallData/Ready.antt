-- ===== src/Scheduler/Rpc/CallData/Ready.antt =====
-- src/scheduler/rpc: the server stays ready for the next request of each class.
use contentv.Prelude.{ℕ, ◌+◌, ◌≡◌, ◌≢◌, All, List, [], ◌∷◌, Bool, true, false, ◌&&◌, if◌then◌else◌}
use contentv.Scheduler.Rpc.{IScheduler}
use contentv.Scheduler.Rpc.CallData.{
  CallStatus, create, process, finish, Rpc, try_rpc, fetched_rpc, CallData, Request, Reply, Server,
  process_request,
}

module _ (sched : IScheduler) where
  open sched use {State}

  -- How many call data wait for a request of a class.
  abbrev same_rpc : Rpc → Rpc → Bool
  same_rpc try_rpc try_rpc = true
  same_rpc fetched_rpc fetched_rpc = true
  same_rpc try_rpc fetched_rpc = false
  same_rpc fetched_rpc try_rpc = false

  abbrev is_process : CallStatus → Bool
  is_process process = true
  is_process create = false
  is_process finish = false

  abbrev weight : Rpc → CallData → ℕ
  weight r c = if same_rpc c.rpc r && is_process c.status then 1 else 0

  abbrev pub waiting : Rpc → List CallData → ℕ
  waiting r [] = 0
  waiting r (c ∷ calls) = weight r c + waiting r calls

  -- The scheduler's state after requests, in order, and their replies.
  abbrev pub replay : List (Request × Reply) → State → State
  replay [] s = s
  replay ((request, reply) ∷ rest) s = replay rest (process_request sched s request).0

  -- For each class there is exactly one call data that waits for its next request, or whose event was
  -- dropped while it waited, and the scheduler's state is that after the processed requests, each of
  -- them once.
  pub record IsReady (s : State) (v : Server sched) : Type 0 where
    pub try_waits : waiting try_rpc v.calls + waiting try_rpc v.dropped ≡ 1
    pub fetched_waits : waiting fetched_rpc v.calls + waiting fetched_rpc v.dropped ≡ 1
    pub replayed : v.state ≡ replay v.processed s
    -- no call data is seen before its constructor has ended
    pub none_created : All (λ (c : CallData). c.status ≢ create) v.calls

  abbrev Uncreated : CallData → Type 0
  Uncreated c = c.status ≢ create

  abbrev at : Rpc → CallStatus → CallData
  at rpc status = record { rpc = rpc; status = status }
