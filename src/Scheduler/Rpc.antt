-- ===== src/Scheduler/Rpc.antt =====
-- src/scheduler/rpc: a scheduler behind gRPC. SchedulerClient.cpp makes the calls, and
-- SchedulerServerCallDataTryFetchUrls.cpp and SchedulerServerCallDataOnFetched.cpp answer them.
pub mod Calls
pub mod CallData
use contentv.Prelude.{List, [], ◌∷◌, ◌++◌, Option, none, some, map}
use contentv.Core.Records.{GfqRecord, FetchResult}
use contentv.Core.Records.Pb.{
  GfqRecordPb, FetchResultPb, gfq_of_pb, gfq_to_pb, result_of_pb, result_to_pb,
}

-- src/scheduler/IScheduler.h
pub record IScheduler : Type 1 where
  pub State : Type 0
  pub try_fetch_urls : State → List GfqRecord → State × List GfqRecord
  pub on_fetched : State → List FetchResult → State

-- What gRPC does with a call: the server does not get it; the server gets it, and the client gets a
-- status that is not ok; or the client gets the reply.
pub data Delivery : Type 0 where
  lost unanswered answered : Delivery

module _ (sched : IScheduler) where
  open sched use {State, try_fetch_urls, on_fetched}

  -- `CallDataTryFetchUrls::CallTryFetchUrls`
  unfoldable pub call_try_fetch_urls : State → List GfqRecordPb → State × List GfqRecordPb
  unfolding gfq_of_pb gfq_to_pb
  call_try_fetch_urls s request =
      let r = try_fetch_urls s (map gfq_of_pb request) in (r.0, map gfq_to_pb r.1)

  -- `CallDataOnFetched::CallOnFetched`, whose reply is empty.
  unfoldable pub call_on_fetched : State → List FetchResultPb → State
  unfolding result_of_pb
  call_on_fetched s request = on_fetched s (map result_of_pb request)

  -- `stub_->TryFetchUrls`: the reply stays empty where the status is not ok.
  unfoldable pub stub_try_fetch_urls :
      Delivery → State → List GfqRecordPb → State × List GfqRecordPb
  unfolding call_try_fetch_urls
  stub_try_fetch_urls lost s request = (s, [])
  stub_try_fetch_urls unanswered s request = ((call_try_fetch_urls s request).0, [])
  stub_try_fetch_urls answered s request = call_try_fetch_urls s request

  unfoldable pub stub_on_fetched : Delivery → State → List FetchResultPb → State
  unfolding call_on_fetched
  stub_on_fetched lost s request = s
  stub_on_fetched unanswered s request = call_on_fetched s request
  stub_on_fetched answered s request = call_on_fetched s request

  -- `SchedulerClient::tryFetchUrls`
  unfoldable pub client_try_fetch_urls : Delivery → State → List GfqRecord → State × List GfqRecord
  unfolding stub_try_fetch_urls gfq_of_pb gfq_to_pb
  client_try_fetch_urls sent s try_urls =
      let r = stub_try_fetch_urls sent s (map gfq_to_pb try_urls) in (r.0, map gfq_of_pb r.1)

  -- `SchedulerClient::onFetched`
  unfoldable pub client_on_fetched : Delivery → State → List FetchResult → State
  unfolding stub_on_fetched result_to_pb
  client_on_fetched sent s results = stub_on_fetched sent s (map result_to_pb results)
