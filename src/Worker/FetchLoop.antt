-- ===== src/Worker/FetchLoop.antt =====
-- src/worker/FetchLoop.h and .cpp: the records of a batch are asked for, fetched or pushed back, and
-- each response is counted and told to the scheduler.
pub mod Batch
pub mod Stats
pub mod Queue
use contentv.Prelude.{
  ℕ, zero, suc, String, List, [], ◌∷◌, ◌++◌, Option, none, some, Bool, true, false, not, ◌&&◌,
  if◌then◌else◌,
}
use contentv.Prelude.Result.{Result, ok, throws}
use contentv.Core.Attempts.{AttemptStatus, fetched, curl_err}
use contentv.Core.Records.{GfqRecord, FetchResult, FetchStats, is_robots}
use contentv.Misc.{Differ, SchedulerApi}
use contentv.Worker.ReqBatch.{ReqBatch, get_reqs, slice}

-- What `_sendToCurl` has done: the scheduler's state, the records that the http client fetches, and
-- those that are pushed back to the queue.
pub record Sent (State : Type 0) : Type 0 where
  pub state : State
  pub called : List GfqRecord
  pub pushed : List GfqRecord

unfoldable pub send_more :
    {State : Type 0} → List GfqRecord → List GfqRecord → Sent State → Sent State
send_more called pushed s = record s { called = called ++ s.called; pushed = pushed ++ s.pushed }

-- A round's records in front of what the rounds behind it send; `none` is no fuel.
unfoldable pub after :
    {State : Type 0}
    → List GfqRecord
    → List GfqRecord
    → Option (Result (Sent State))
    → Option (Result (Sent State))
unfolding send_more
after called pushed none = none
after called pushed (some (throws e)) = some (throws e)
after called pushed (some (ok s)) = some (ok (send_more called pushed s))

module _ (api : SchedulerApi) (differ : Differ) (max_requests : ℕ) where
  open api use {State, try_fetch_urls}

  unfoldable pub send_to_curl : ℕ → State → ReqBatch → Option (Result (Sent State))
  unfolding get_reqs slice after
  send_to_curl fuel s [] = some (ok (record { state = s; called = []; pushed = [] }))
  send_to_curl zero s (r ∷ batch) = none
  send_to_curl (suc fuel) s (r ∷ batch) =
      let tried = get_reqs (r ∷ batch) max_requests in
      elim (slice (r ∷ batch) tried.1) [
        | throws e ↦ some (throws e)
        | ok batch' ↦
            let t = try_fetch_urls s tried.0 in
            after t.1 (differ.sorted_minus tried.0 t.1) (send_to_curl fuel t.0 batch')
      ]

-- `HttpClient::JobInfo`, as far as it is read.
pub record JobInfo : Type 0 where
  pub success : Bool
  pub userdata : GfqRecord
  pub resp : String
  pub curlerror : String

-- What `_onResponse` leaves: the counters, what the scheduler is told, and the page that is saved.
pub record Response : Type 0 where
  pub stats : FetchStats
  pub told : FetchResult
  pub saved : Option (String × String)

unfoldable pub count_response : FetchStats → JobInfo → FetchStats
unfolding is_robots
count_response st ji =
    if ji.success
    then (if is_robots ji.userdata
        then record st { robots_success = suc st.robots_success }
        else record st { success = suc st.success })
    else (if is_robots ji.userdata
        then record st { robots_fail = suc st.robots_fail }
        else record st { fail = suc st.fail })

unfoldable pub fetch_result : JobInfo → FetchResult
unfolding is_robots
fetch_result ji = record {
  gfq = ji.userdata;
  status = if not ji.success then curl_err else fetched;
  error_str = if not ji.success then ji.curlerror else "";
  content = if ji.success && is_robots ji.userdata then ji.resp else "";
}

unfoldable pub on_response : FetchStats → JobInfo → Response
unfolding count_response fetch_result is_robots
on_response st ji = record {
  stats = count_response st ji;
  told = fetch_result ji;
  saved =
      if ji.success && not (is_robots ji.userdata) then some (ji.userdata.url, ji.resp) else none;
}
