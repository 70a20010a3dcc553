-- ===== src/Core/Records/Pb.antt =====
-- src/core/GFQRecord.cpp and FetchResult.cpp, src/proto/GFQRecord.proto and FetchResult.proto: the
-- protobuf messages of the records.
use contentv.Prelude.{ℕ, ◌≡◌, refl, ap, String, List, [], ◌∷◌, Option, none, some, map}
use contentv.Prelude.Result.{Result, ok, throws}
use contentv.Core.Attempts.{AttemptStatus, enqueued}
use contentv.Core.Records.{GfqRecord, FetchResult}

-- The field of a message, where a field that is not set has its default.
abbrev pub field_or : {A : Type 0} → A → Option A → A
field_or default none = default
field_or default (some a) = a

pub record GfqRecordPb : Type 0 where
  pub url : Option String
  pub attempt_ts : Option ℕ

pub record FetchResultPb : Type 0 where
  pub gfq : Option GfqRecordPb
  pub status : Option AttemptStatus
  pub error_str : Option String
  pub content : Option String

-- The code that protobuf makes for `GFQRecordPb`.
pub record GfqCodec : Type 0 where
  pub serialize : GfqRecordPb → String
  pub parse : String → Option GfqRecordPb
  pub parse-serialize : (pb : GfqRecordPb) → parse (serialize pb) ≡ some pb

abbrev pub no_gfq : GfqRecordPb
no_gfq = record { url = none; attempt_ts = none }

unfoldable pub gfq_of_pb : GfqRecordPb → GfqRecord
gfq_of_pb pb = record { url = field_or "" pb.url; attempt_ts = field_or 0 pb.attempt_ts }

unfoldable pub gfq_to_pb : GfqRecord → GfqRecordPb
gfq_to_pb gfq = record { url = some gfq.url; attempt_ts = some gfq.attempt_ts }

unfoldable pub result_of_pb : FetchResultPb → FetchResult
unfolding gfq_of_pb
result_of_pb pb = record {
  gfq = gfq_of_pb (field_or no_gfq pb.gfq);
  status = field_or enqueued pb.status;
  error_str = field_or "" pb.error_str;
  content = field_or "" pb.content;
}

unfoldable pub result_to_pb : FetchResult → FetchResultPb
unfolding gfq_to_pb
result_to_pb r = record {
  gfq = some (gfq_to_pb r.gfq);
  status = some r.status;
  error_str = some r.error_str;
  content = some r.content;
}

module _ (codec : GfqCodec) where
  unfoldable pub dump : GfqRecord → String
  unfolding gfq_to_pb
  dump gfq = codec.serialize (gfq_to_pb gfq)

  -- The constructor from a dump.
  unfoldable pub load : String → Result GfqRecord
  unfolding gfq_of_pb
  load text = elim (codec.parse text) [
    | none ↦ throws "GFQRecord::GFQRecord parsing"
    | some pb ↦ ok (gfq_of_pb pb)
  ]

  -- A record that is written to the queue is read as it was.
  pub load-dump : (gfq : GfqRecord) → load (dump gfq) ≡ ok gfq
  unfolding load dump
  load-dump gfq = rw (codec.parse-serialize (gfq_to_pb gfq), load) refl

pub map-gfq_pb : (xs : List GfqRecord) → map gfq_of_pb (map gfq_to_pb xs) ≡ xs
unfolding gfq_of_pb gfq_to_pb
map-gfq_pb [] = refl
map-gfq_pb (x ∷ xs) = ap (◌∷◌ x) (map-gfq_pb xs)

pub map-result_pb : (rs : List FetchResult) → map result_of_pb (map result_to_pb rs) ≡ rs
unfolding result_of_pb result_to_pb
map-result_pb [] = refl
map-result_pb (r ∷ rs) = ap (◌∷◌ r) (map-result_pb rs)
