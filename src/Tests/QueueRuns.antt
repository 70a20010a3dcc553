-- ===== src/Tests/QueueRuns.antt =====
-- A codec and a reader for the queues, and the theorems about them at concrete inputs.
use contentv.Prelude.{
  ℕ, ◌+◌, ◌≡◌, refl, ap, ◌∙◌, String, List, [], ◌∷◌, ◌++◌, Option, none, some, map, str_eq,
  if◌then◌else◌, length,
}
use contentv.Prelude.Text.{codes}
use contentv.Prelude.Result.{Result, ok, throws}
use contentv.Core.FreqMap.{UrlVisit}
use contentv.Core.Records.{GfqRecord}
use contentv.Core.Records.Pb.{GfqRecordPb, GfqCodec, dump}
use contentv.Scheduler.Enqueue.{push_to_kafka}
use contentv.Worker.FetchLoop.Queue.{get_stats, read_impl}
use contentv.Kafkawrap.{SimdJson, read_gfq}
use contentv.Kafkawrap.RoundTrip.{gfq_at, read_impl-push_to_kafka}
use contentv.Tests.Texts.{encode, decode, decode-encode, unary, length-unary}
use contentv.Tests.Helpers.{json, queue, differ}
use contentv.Tests.LoopRuns.{api, waiting}

abbrev text_field : Option String → List String
text_field none = "" ∷ "" ∷ []
text_field (some s) = "1" ∷ s ∷ []

abbrev number_field : Option ℕ → List String
number_field none = "" ∷ "" ∷ []
number_field (some n) = "1" ∷ unary n ∷ []

abbrev message_of : List String → Option GfqRecordPb
message_of [] = none
message_of (a ∷ []) = none
message_of (a ∷ s ∷ []) = none
message_of (a ∷ s ∷ b ∷ []) = none
message_of (a ∷ s ∷ b ∷ n ∷ l) = some (record {
  url = if str_eq a "" then none else some s;
  attempt_ts = if str_eq b "" then none else some (length (codes n));
})

message_of-fields :
    (url : Option String) (ts : Option ℕ)
    → message_of (text_field url ++ number_field ts) ≡ some (record { url = url; attempt_ts = ts })
message_of-fields none none = refl
message_of-fields none (some n) =
    ap (λ k. some (record { url = none; attempt_ts = some k })) (length-unary n)
message_of-fields (some s) none = refl
message_of-fields (some s) (some n) =
    ap (λ k. some (record { url = some s; attempt_ts = some k })) (length-unary n)

abbrev gfq_codec : GfqCodec
gfq_codec = record {
  serialize = λ pb. encode (text_field pb.url ++ number_field pb.attempt_ts);
  parse = λ t. message_of (decode t);
  parse-serialize = λ pb.
      ap message_of (decode-encode (text_field pb.url ++ number_field pb.attempt_ts))
      ∙ message_of-fields pb.url pb.attempt_ts;
}

read_impl-push_to_kafka_example :
    let r = read_gfq gfq_codec (map (dump gfq_codec) (push_to_kafka ("https://h/3" ∷ []) 7)) in
    let s' = read_impl (queue GfqRecord) api differ 2 waiting r.0 in
    (r.1 ≡ ok tt)
    × ((get_stats (queue GfqRecord) api differ 2 s').pushed
        ≡ (get_stats (queue GfqRecord) api differ 2 waiting).pushed + 1)
    × (s'.queue ≡ waiting.queue ++ map (gfq_at 7) ("https://h/3" ∷ []))
read_impl-push_to_kafka_example =
    read_impl-push_to_kafka gfq_codec (queue GfqRecord) api differ 2 waiting ("https://h/3" ∷ []) 7

abbrev text_of : List String → Result String
text_of [] = throws "no such field"
text_of (t ∷ []) = throws "no such field"
text_of (t ∷ s ∷ l) = if str_eq t "s" then ok s else throws "incorrect type"

abbrev number_of : List String → Result ℕ
number_of [] = throws "no such field"
number_of (t ∷ []) = throws "no such field"
number_of (t ∷ n ∷ l) = if str_eq t "n" then ok (length (codes n)) else throws "incorrect type"

abbrev simd : SimdJson json
simd = record {
  Document = String;
  iterate = λ t. t;
  string_at = λ k d. text_of (decode (json.get k d));
  uint64_at = λ k d. number_of (decode (json.get k d));
  string_at-write =
      λ k s v e. ap (λ t. text_of (decode t)) e ∙ ap text_of (decode-encode ("s" ∷ s ∷ []));
  uint64_at-write = λ k n v e.
      ap (λ t. number_of (decode t)) e
      ∙ (ap number_of (decode-encode ("n" ∷ unary n ∷ [])) ∙ ap ok (length-unary n));
}

abbrev visits : List UrlVisit
visits = record { url = "https://h/1"; tp = 5500000000 } ∷ []
