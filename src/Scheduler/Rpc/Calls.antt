-- ===== src/Scheduler/Rpc/Calls.antt =====
-- src/scheduler/rpc/SchedulerClient.cpp: calls through client and server are calls of the scheduler.
use contentv.Prelude.{ℕ, suc, ◌≡◌, refl, ap, ◌∙◌, subst, sym, List, [], ◌∷◌, map}
use mathlib.Core.List.{Sublistᴰ}
use contentv.Core.Records.{GfqRecord, FetchResult}
use contentv.Core.Records.Pb.{gfq_of_pb, gfq_to_pb, map-gfq_pb, map-result_pb}
use contentv.Misc.{SchedulerApi}
use contentv.Scheduler.Rpc.{
  IScheduler, Delivery, lost, unanswered, answered, client_try_fetch_urls, client_on_fetched,
}

-- A call of an `IScheduler`.
pub data Op : Type 0 where
  try : List GfqRecord → Op
  fetched : List FetchResult → Op

module _ (sched : IScheduler) where
  open sched use {State, try_fetch_urls, on_fetched}

  -- A call of the scheduler itself, and what it allows.
  abbrev pub direct : Op → State → State × List GfqRecord
  direct (try xs) s = try_fetch_urls s xs
  direct (fetched rs) s = (on_fetched s rs, [])

  abbrev pub by_client : Delivery → Op → State → State × List GfqRecord
  by_client sent (try xs) s = client_try_fetch_urls sched sent s xs
  by_client sent (fetched rs) s = (client_on_fetched sched sent s rs, [])

  -- What such a call is worth: nothing where it is lost, and no answer where the reply is.
  abbrev pub delivered : Delivery → State → State × List GfqRecord → State × List GfqRecord
  delivered lost s r = (s, [])
  delivered unanswered s r = (r.0, [])
  delivered answered s r = r

  by_client_lem :
      (sent : Delivery) (op : Op) (s : State) → by_client sent op s ≡ delivered sent s (direct op s)
  unfolding client_try_fetch_urls client_on_fetched
  by_client_lem lost (try xs) s = refl
  by_client_lem lost (fetched rs) s = refl
  by_client_lem unanswered (try xs) s = ap (λ l. ((try_fetch_urls s l).0, [])) (map-gfq_pb xs)
  by_client_lem unanswered (fetched rs) s = ap (λ l. (on_fetched s l, [])) (map-result_pb rs)
  by_client_lem answered (try xs) s =
      ap (λ l. ((try_fetch_urls s l).0, map gfq_of_pb (map gfq_to_pb (try_fetch_urls s l).1)))
        (map-gfq_pb xs)
      ∙ ap (λ l. ((try_fetch_urls s xs).0, l)) (map-gfq_pb ((try_fetch_urls s xs).1))
  by_client_lem answered (fetched rs) s = ap (λ l. (on_fetched s l, [])) (map-result_pb rs)

  -- The calls of a worker, one after the other: the scheduler's state, and the answers.
  abbrev pub run_client : List (Delivery × Op) → State → State × List (List GfqRecord)
  run_client [] s = (s, [])
  run_client ((sent, op) ∷ calls) s =
      let r = by_client sent op s in let rest = run_client calls r.0 in (rest.0, r.1 ∷ rest.1)

  abbrev pub run_direct : List (Delivery × Op) → State → State × List (List GfqRecord)
  run_direct [] s = (s, [])
  run_direct ((sent, op) ∷ calls) s =
      let r = delivered sent s (direct op s) in
      let rest = run_direct calls r.0 in (rest.0, r.1 ∷ rest.1)

  -- Any sequence of calls through client and server is the same calls of the scheduler, except that a
  -- lost call is not made, and that a call whose reply is lost is made and seems to allow nothing.
  pub run_client_lem :
      (calls : List (Delivery × Op)) (s : State) → run_client calls s ≡ run_direct calls s
  run_client_lem [] s = refl
  run_client_lem ((sent, op) ∷ calls) s =
      ap
        (λ (r : State × List GfqRecord). ((run_client calls r.0).0, r.1 ∷ (run_client calls r.0).1))
        (by_client_lem sent op s)
      ∙ ap (λ (o : State × List (List GfqRecord)). (o.0, (delivered sent s (direct op s)).1 ∷ o.1))
          (run_client_lem calls (delivered sent s (direct op s)).0)

  nil-Sublist : (xs : List GfqRecord) → Sublistᴰ [] xs
  nil-Sublist [] = Sublistᴰ.slnil
  nil-Sublist (x ∷ xs) = Sublistᴰ.cons (nil-Sublist xs)

  -- A scheduler behind gRPC is a scheduler for a worker, whatever happens to the calls: `deliveries n`
  -- is what happens to the n-th.
  pub client :
      ((s : State) (xs : List GfqRecord) → Sublistᴰ (try_fetch_urls s xs).1 xs)
      → (ℕ → Delivery)
      → SchedulerApi
  client law deliveries = record {
    State = State × ℕ;
    try_fetch_urls =
        λ s xs. let r = by_client (deliveries s.1) (try xs) s.0 in ((r.0, suc s.1), r.1);
    try_fetch_urls-Sublist = λ s xs.
        subst (λ (r : State × List GfqRecord). Sublistᴰ r.1 xs)
          (sym (by_client_lem (deliveries s.1) (try xs) s.0))
          (worth (deliveries s.1) s.0 xs (try_fetch_urls s.0 xs) (law s.0 xs));
  }
    where
      worth :
          (sent : Delivery) (s : State) (xs : List GfqRecord) (r : State × List GfqRecord)
          → Sublistᴰ r.1 xs
          → Sublistᴰ (delivered sent s r).1 xs
      worth lost s xs r h = nil-Sublist xs
      worth unanswered s xs r h = nil-Sublist xs
      worth answered s xs r h = h
