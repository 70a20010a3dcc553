-- ===== src/Kafkawrap.antt =====
-- src/kafkawrap: the messages of the two queues, read into records and visits, and the JSON form of a
-- visit in src/core/UrlVisit.cpp. The Kafka reader is a parameter: it is the list of messages that it
-- hands over.
pub mod RoundTrip
use contentv.Prelude.{ℕ, ◌*◌, ◌≡◌, String, List, [], ◌∷◌}
use contentv.Prelude.Result.{Result, ok, throws, ◌>>=◌}
use contentv.Core.Time.{Tp}
use contentv.Core.FreqMap.{UrlVisit}
use contentv.Core.Records.{GfqRecord}
use contentv.Core.Records.Pb.{GfqCodec, load}
use contentv.Core.QueryGroup.{JsonCpp}

-- simdjson: it reads the fields of a text that JsonCpp wrote, and throws where a field is missing or
-- of another type.
pub record SimdJson (json : JsonCpp) : Type 1 where
  pub Document : Type 0
  pub iterate : String → Document
  pub string_at : String → Document → Result String
  pub uint64_at : String → Document → Result ℕ
  pub string_at-write :
      (k s : String) (v : json.Value)
      → json.get k v ≡ json.string s
      → string_at k (iterate (json.write v)) ≡ ok s
  pub uint64_at-write :
      (k : String) (n : ℕ) (v : json.Value)
      → json.get k v ≡ json.number n
      → uint64_at k (iterate (json.write v)) ≡ ok n

-- What the callback was called with, and whether the reader ended or the message behind that threw.
abbrev pub Read : Type 0 → Type 0
Read A = List A × Result (Unit {0})

-- `_kafka_reader->read`: the message is made into a value for the callback, as long as none throws.
unfoldable pub read_all : {A : Type 0} → (String → Result A) → List String → Read A
read_all make [] = ([], ok tt)
read_all make (message ∷ messages) = elim (make message) [
  | throws what ↦ ([], throws what)
  | ok a ↦ let rest = read_all make messages in (a ∷ rest.0, rest.1)
]

-- `GFQReader::read`
unfoldable pub read_gfq : GfqCodec → List String → Read GfqRecord
unfolding read_all load
read_gfq codec messages = read_all (load codec) messages

module _ (json : JsonCpp) (simd : SimdJson json) where
  open json use {Value, null, string, number, set, write}
  open simd use {iterate, string_at, uint64_at}

  -- `UrlVisit::asJs`; `to_int64` is `misc::to_int64`.
  unfoldable pub as_js : (Tp → ℕ) → UrlVisit → String
  as_js to_int64 v = write (set "ts" (number (to_int64 v.tp)) (set "url" (string v.url) null))

  -- The constructor of `UrlVisit` from a text, and the body of `UrlVisitsReader::read`.
  unfoldable pub visit_of : String → Result UrlVisit
  visit_of text = do
    url ← string_at "url" (iterate text)
    ts ← uint64_at "ts" (iterate text)
    ok (record { url = url; tp = ts * 1000000000 })

  -- `UrlVisitsReader::read`
  unfoldable pub read_visits : List String → Read UrlVisit
  unfolding read_all visit_of
  read_visits messages = read_all visit_of messages
