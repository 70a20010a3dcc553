-- ===== src/Worker/FetchLoop/Queue.antt =====
-- src/worker/FetchLoop.h and .cpp: reading records into the queue, and what the merge queue calls to
-- batch and send them. The queue itself, `misc::MergeQueue`, is a parameter.
use contentv.Prelude.{
  ℕ, suc, ◌+◌, ◌≤◌, ◌≡◌, refl, sym, ap, ◌∙◌, subst, List, [], ◌∷◌, ◌++◌, Option, none, some, arith,
  length,
}
use mathlib.Core.List.{Perm, append-nil, append_assoc}
use mathlib.Core.List.Perm
use contentv.Prelude.Result.{Result, ok, throws}
use contentv.Core.Records.{GfqRecord, FetchStats}
use contentv.Misc.{Differ, SchedulerApi, MergeQueue}
use contentv.Worker.ReqBatch.{ReqBatch, acc}
use contentv.Worker.ReqBatch
use contentv.Worker.FetchLoop.{Sent, send_to_curl}
use contentv.Worker.FetchLoop.Batch.{urls, urls-two, send_to_curl_lem}

module _ (mq : MergeQueue GfqRecord) (api : SchedulerApi) (differ : Differ) (max_requests : ℕ) where
  -- The base class's queue, the scheduler behind `m_scheduler_api`, the records that `m_client` was
  -- called with, the counters and `m_req_batch`.
  pub record FetchState : Type 0 where
    pub queue : mq.Queue
    pub scheduler : api.State
    pub called : List GfqRecord
    pub stats : FetchStats
    pub req_batch : ReqBatch

  -- The callback of `_loopImpl`; `kick` has no effect on the state.
  unfoldable pub on_gfq : FetchState → GfqRecord → FetchState
  on_gfq s gfq = record s {
    stats = record s.stats { pushed = suc s.stats.pushed };
    queue = mq.push s.queue gfq;
  }

  -- `_loopImpl`, when `GFQReader::read` hands over these records.
  unfoldable pub read_impl : FetchState → List GfqRecord → FetchState
  unfolding on_gfq
  read_impl s [] = s
  read_impl s (g ∷ gs) = read_impl (on_gfq s g) gs

  -- `getStats`
  unfoldable pub get_stats : FetchState → FetchStats
  get_stats s = s.stats

  -- `accEvent`, which does not use the batch that it gets.
  unfoldable pub acc_event : FetchState → ReqBatch → GfqRecord → FetchState
  unfolding acc
  acc_event s batch req = record s { req_batch = acc s.req_batch req }

  -- `copyGlobalObj`
  unfoldable pub copy_global_obj : FetchState → ReqBatch
  copy_global_obj s = s.req_batch

  -- `merge`
  unfoldable pub merge : ReqBatch → ReqBatch → ReqBatch
  unfolding ReqBatch.merge
  merge a b = ReqBatch.merge a b

  -- `FetchLoopMergeQueue::push` of the records that are sent back.
  unfoldable pub push_back : mq.Queue → List GfqRecord → mq.Queue
  push_back q [] = q
  push_back q (g ∷ gs) = push_back (mq.push q g) gs

  -- What `_sendToCurl` leaves, with an empty batch.
  unfoldable pub after_sent :
      FetchState → Option (Result (Sent api.State)) → Option (Result FetchState)
  unfolding push_back
  after_sent s none = none
  after_sent s (some (throws what)) = some (throws what)
  after_sent s (some (ok sent)) = some (
      ok (record s {
        scheduler = sent.state;
        called = s.called ++ sent.called;
        queue = push_back s.queue sent.pushed;
        req_batch = [];
      }))

  -- `switchGlobalObj`; `none` is no fuel.
  unfoldable pub switch_global_obj : ℕ → FetchState → ReqBatch → Option (Result FetchState)
  unfolding send_to_curl after_sent
  switch_global_obj fuel s a =
      after_sent s (send_to_curl api differ max_requests fuel s.scheduler a)

  waiting-push_back :
      (q : mq.Queue) (gs : List GfqRecord) → mq.waiting (push_back q gs) ≡ mq.waiting q ++ gs
  unfolding push_back
  waiting-push_back q [] = sym (append-nil (mq.waiting q))
  waiting-push_back q (g ∷ gs) =
      waiting-push_back (mq.push q g) gs
      ∙ (ap (λ l. l ++ gs) (mq.waiting-push q g) ∙ append_assoc (mq.waiting q) (g ∷ []) gs)

  -- Sending a batch ends without an exception, and each url of it is then, as often as it stood
  -- there, among those that are fetched or that wait in the queue, when a request may have at least
  -- one record.
  switch_global_obj_lem :
      (fuel : ℕ) (s : FetchState) (a : ReqBatch)
      → 1 ≤ max_requests
      → length a ≤ fuel
      → (s' : FetchState) × (switch_global_obj fuel s a ≡ some (ok s'))
        × (s'.req_batch ≡ [])
        × Perm
            (urls (s'.called ++ mq.waiting s'.queue))
            (urls ((s.called ++ mq.waiting s.queue) ++ a))
  unfolding switch_global_obj after_sent
  switch_global_obj_lem fuel s a one enough =
      let t = send_to_curl_lem api differ max_requests fuel s.scheduler a one enough in
      (
        record s {
          scheduler = t.0.state;
          called = s.called ++ t.0.called;
          queue = push_back s.queue t.0.pushed;
          req_batch = [];
        },
        ap (after_sent s) (t.1),
        refl,
        subst
            (λ w.
              Perm (urls ((s.called ++ t.0.called) ++ w))
                (urls ((s.called ++ mq.waiting s.queue) ++ a)))
            (sym (waiting-push_back s.queue t.0.pushed))
            (urls-two s.called (mq.waiting s.queue) t.0.called t.0.pushed
              (s.called ++ mq.waiting s.queue) a (Perm.refl (urls (s.called ++ mq.waiting s.queue)))
              (t.2)),
      )

  -- Reading counts each record and puts it into the queue.
  pub read_impl_lem :
      (s : FetchState) (gs : List GfqRecord)
      → ((get_stats (read_impl s gs)).pushed ≡ (get_stats s).pushed + length gs)
        × (mq.waiting (read_impl s gs).queue ≡ mq.waiting s.queue ++ gs)
  unfolding read_impl on_gfq get_stats
  read_impl_lem s [] = (omega arith, sym (append-nil (mq.waiting s.queue)))
  read_impl_lem s (g ∷ gs) =
      let ih = read_impl_lem (on_gfq s g) gs in
      (
        omega (arith, ih.0),
        ih.1
            ∙ (ap (λ l. l ++ gs) (mq.waiting-push s.queue g)
                ∙ append_assoc (mq.waiting s.queue) (g ∷ []) gs),
      )
