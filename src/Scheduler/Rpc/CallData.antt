-- ===== src/Scheduler/Rpc/CallData.antt =====
-- src/scheduler/rpc/SchedulerServer.cpp and the `Proceed` of its call data: which calls the server
-- waits for, and which requests it has processed.
pub mod Ready
use contentv.Prelude.{
  ℕ, ◌+◌, ◌≡◌, ◌≢◌, All, All-append, subst, refl, sym, ap, ◌∙◌, List, [], ◌∷◌, ◌++◌, Option, none,
  some, Bool, true, false, ◌&&◌, arith, if◌then◌else◌,
}
use contentv.Core.Records.Pb.{GfqRecordPb, FetchResultPb}
use contentv.Scheduler.Rpc.{IScheduler, call_try_fetch_urls, call_on_fetched}

pub data CallStatus : Type 0 where
  create process finish : CallStatus

-- The class of the call data.
pub data Rpc : Type 0 where
  try_rpc fetched_rpc : Rpc

pub record CallData : Type 0 where
  pub rpc : Rpc
  pub status : CallStatus

pub data Request : Type 0 where
  try_request : List GfqRecordPb → Request
  fetched_request : List FetchResultPb → Request

pub data Reply : Type 0 where
  try_reply : List GfqRecordPb → Reply
  fetched_reply : Reply

-- The rpc that a request asks for.
abbrev pub rpc_of : Request → Rpc
rpc_of (try_request xs) = try_rpc
rpc_of (fetched_request rs) = fetched_rpc

module _ (sched : IScheduler) where
  open sched use {State}

  -- Processing a request, as `CallTryFetchUrls` and `CallOnFetched` do.
  unfoldable pub process_request : State → Request → State × Reply
  unfolding call_try_fetch_urls call_on_fetched
  process_request s (try_request xs) =
      let r = call_try_fetch_urls sched s xs in (r.0, try_reply r.1)
  process_request s (fetched_request rs) = (call_on_fetched sched s rs, fetched_reply)

  -- `calls` are the call data whose tag the completion queue will bring, and `dropped` those whose tag
  -- it has brought without `Proceed` being called: no operation is pending for these any more, and they
  -- are never deleted. Then `m_running`, the scheduler's state, and what was processed with its replies.
  pub record Server : Type 0 where
    pub calls : List CallData
    pub dropped : List CallData
    pub running : Bool
    pub state : State
    pub processed : List (Request × Reply)

  -- `new CallData…`: the constructor ends with `Proceed`, which asks for the next request.
  unfoldable pub new_call : Rpc → CallData
  new_call rpc = record { rpc = rpc; status = process }

  -- `InstateAllCallDatas`
  unfoldable pub instate : State → Server
  unfolding new_call
  instate s = record {
    calls = new_call try_rpc ∷ new_call fetched_rpc ∷ [];
    dropped = [];
    running = true;
    state = s;
    processed = [];
  }

  -- `Proceed` of a call data between others, with the request that gRPC wrote into it.
  unfoldable pub proceed : List CallData → CallData → List CallData → Request → Server → Server
  unfolding new_call process_request
  proceed before c after request v = elim (c.status) [
    | create ↦ record v { calls = before ++ record c { status = process } ∷ after }
    | process ↦
        let r = process_request v.state request in
        record v {
          calls = before ++ record c { status = finish } ∷ (after ++ new_call c.rpc ∷ []);
          state = r.0;
          processed = v.processed ++ (request, r.1) ∷ [];
        }
    | finish ↦ record v { calls = before ++ after }
  ]

  -- The body of the loop of `HandleRpcs`, behind `Next`.
  unfoldable pub handle :
      Bool → List CallData → CallData → List CallData → Request → Server → Server
  unfolding proceed
  handle ok before c after request v =
      if v.running && ok
      then proceed before c after request v
      else record v { calls = before ++ after; dropped = c ∷ v.dropped }

  -- One turn of `HandleRpcs`: an event of the completion queue with `ok` and the tag of a call data,
  -- whose request is one of its class. Or `stop`, by another thread: the turn of the loop that has
  -- begun before may still bring an event.
  pub data Step (v : Server) : Server → Type 0 where
    event :
        (ok : Bool) (before after : List CallData) (rpc : Rpc) (status : CallStatus)
        (request : Request) (v' : Server)
        → v.calls ≡ before ++ record { rpc = rpc; status = status } ∷ after
        → rpc_of request ≡ rpc
        → v' ≡ handle ok before (record { rpc = rpc; status = status }) after request v
        → Step v v'
    stop : (v' : Server) → v' ≡ record v { running = false } → Step v v'

  pub data Reach (s : State) : Server → Type 0 where
    start : (v : Server) → v ≡ instate s → Reach s v
    later : {v v' : Server} → Reach s v → Step v v' → Reach s v'
