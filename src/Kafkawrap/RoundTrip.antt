-- ===== src/Kafkawrap/RoundTrip.antt =====
-- src/kafkawrap: what is written to a queue is what is read from it.
use contentv.Prelude.{
  ℕ, suc, ◌+◌, ◌*◌, ◌≡◌, refl, ap, ◌∙◌, String, List, [], ◌∷◌, ◌++◌, map, length, arith,
}
use contentv.Prelude.Result.{Result, ok}
use contentv.Core.Time.{Tp}
use contentv.Core.FreqMap.{UrlVisit}
use contentv.Core.Records.{GfqRecord}
use contentv.Core.Records.Pb.{GfqCodec, dump, load, load-dump}
use contentv.Core.QueryGroup.{JsonCpp}
use contentv.Misc.{SchedulerApi, Differ, MergeQueue}
use contentv.Scheduler.Enqueue.{push_to_kafka}
use contentv.Worker.FetchLoop.Queue.{FetchState, read_impl, get_stats, read_impl_lem}
use contentv.Kafkawrap.{SimdJson, Read, read_all, read_gfq, as_js, visit_of, read_visits}

-- When each written message makes its value, all of them are read, in order.
read_all-map :
    {A B : Type 0} (write : B → String) (make : String → Result A) (f : B → A)
    → ((b : B) → make (write b) ≡ ok (f b))
    → (bs : List B) → read_all make (map write bs) ≡ (map f bs, ok tt)
unfolding read_all
read_all-map write make f h [] = refl
read_all-map write make f h (b ∷ bs) =
    rw (h b, read_all) (ap (λ r. (f b ∷ r.0, r.1)) (read_all-map write make f h bs))

map_id : (xs : List GfqRecord) → map (λ x. x) xs ≡ xs
map_id [] = refl
map_id (x ∷ xs) = ap (λ l. x ∷ l) (map_id xs)

read_gfq-dump :
    (codec : GfqCodec) (gs : List GfqRecord) → read_gfq codec (map (dump codec) gs) ≡ (gs, ok tt)
unfolding read_gfq
read_gfq-dump codec gs =
    read_all-map (dump codec) (load codec) (λ g. g) (load-dump codec) gs
    ∙ ap (λ l. (l, ok tt)) (map_id gs)

length-map : {A B : Type 0} (f : A → B) (xs : List A) → length (map f xs) ≡ length xs
length-map f [] = refl
length-map f (x ∷ xs) = ap suc (length-map f xs)

-- The record of a url for an attempt.
abbrev pub gfq_at : ℕ → String → GfqRecord
gfq_at ts url = record { url = url; attempt_ts = ts }

push_to_kafka-map : (urls : List String) (ts : ℕ) → push_to_kafka urls ts ≡ map (gfq_at ts) urls
unfolding push_to_kafka
push_to_kafka-map [] ts = refl
push_to_kafka-map (u ∷ urls) ts = ap (λ l. gfq_at ts u ∷ l) (push_to_kafka-map urls ts)

-- The messages that the scheduler writes for some urls, read by a worker, make it count one record for
-- each url and put them, in order and with the time of the attempt, at the end of its queue; none of
-- them throws.
pub read_impl-push_to_kafka :
    (codec : GfqCodec) (mq : MergeQueue GfqRecord) (api : SchedulerApi) (differ : Differ)
    (max_requests : ℕ) (s : FetchState mq api differ max_requests) (urls : List String) (ts : ℕ)
    → let r = read_gfq codec (map (dump codec) (push_to_kafka urls ts)) in
      let s' = read_impl mq api differ max_requests s r.0 in
      (r.1 ≡ ok tt)
      × ((get_stats mq api differ max_requests s').pushed
          ≡ (get_stats mq api differ max_requests s).pushed + length urls)
      × (mq.waiting s'.queue ≡ mq.waiting s.queue ++ map (gfq_at ts) urls)
read_impl-push_to_kafka codec mq api differ n s urls ts =
    let gs = push_to_kafka urls ts in
    let read = read_gfq-dump codec gs in
    let r = read_impl_lem mq api differ n s gs in
    let e = push_to_kafka-map urls ts in
    (
      ap (λ r. r.1) read,
      ap
            (λ (l : Read GfqRecord).
              (get_stats mq api differ n (read_impl mq api differ n s l.0)).pushed)
            read
          ∙ omega (arith, r.0, ap length e, length-map (gfq_at ts) urls),
      ap (λ (l : Read GfqRecord). mq.waiting (read_impl mq api differ n s l.0).queue) read
          ∙ (r.1 ∙ ap (λ l. mq.waiting s.queue ++ l) e),
    )

module _ (json : JsonCpp) (simd : SimdJson json) where
  visit_of-as_js :
      (to_int64 : Tp → ℕ) (v : UrlVisit)
      → visit_of json simd (as_js json simd to_int64 v)
        ≡ ok (record { url = v.url; tp = to_int64 v.tp * 1000000000 })
  unfolding visit_of as_js
  visit_of-as_js to_int64 v =
      let value =
        json.set "ts" (json.number (to_int64 v.tp))
          (json.set "url" (json.string v.url) json.null) in
      rw
        (
          simd.string_at-write "url" v.url value
              (json.get-set "ts" "url" _ _ ∙ json.get-set "url" "url" _ _),
          simd.uint64_at-write "ts" (to_int64 v.tp) value (json.get-set "ts" "ts" _ _),
        )
        refl

  -- The JSON texts of some visits are read as visits of the same urls, in order, at the seconds that
  -- were written; none of them throws.
  read_visits-as_js :
      (to_int64 : Tp → ℕ) (vs : List UrlVisit)
      → read_visits json simd (map (as_js json simd to_int64) vs)
        ≡ (map (λ v. record { url = v.url; tp = to_int64 v.tp * 1000000000 }) vs, ok tt)
  unfolding read_visits
  read_visits-as_js to_int64 vs =
      read_all-map (as_js json simd to_int64) (visit_of json simd)
        (λ (v : UrlVisit). record { url = v.url; tp = to_int64 v.tp * 1000000000 })
        (visit_of-as_js to_int64) vs
