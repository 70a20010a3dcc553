-- ===== src/Core/Attempts/Dump.antt =====
-- src/core/CrawlAttempts.cpp: `dump` and the constructor from a dump, through the generated
-- protobuf code and `misc::to_int64` and `from_int64`, which are parameters.
use contentv.Prelude.{ℕ, ◌≡◌, refl, ap, ap₂, String, List, [], ◌∷◌, Option, none, some, map, All}
use contentv.Prelude.Result.{Result, ok, throws}
use contentv.Core.Time.{Tp}
use contentv.Core.Attempts.{AttemptStatus, CrawlAttempt, CrawlAttempts}

-- `CrawlAttemptsPb::CrawlAttempt`
pub record CrawlAttemptPb : Type 0 where
  pub ts : ℕ
  pub status : AttemptStatus

-- What the code relies on: a serialised message parses to itself, and a time that `round_secs`
-- returned survives its trip through a number of seconds.
pub record Codec : Type 0 where
  pub serialize : List CrawlAttemptPb → String
  pub parse : String → Option (List CrawlAttemptPb)
  pub to_int64 : Tp → ℕ
  pub from_int64 : ℕ → Tp
  pub round_secs : Tp → Tp
  pub parse-serialize : (pb : List CrawlAttemptPb) → parse (serialize pb) ≡ some pb
  pub from-to_round : (t : Tp) → from_int64 (to_int64 (round_secs t)) ≡ round_secs t

module _ (codec : Codec) where
  open codec use {
    serialize, parse, to_int64, from_int64, round_secs, parse-serialize, from-to_round,
  }

  unfoldable pub to_pb : CrawlAttempt → CrawlAttemptPb
  to_pb a = record { ts = to_int64 a.tp; status = a.status }

  unfoldable pub of_pb : CrawlAttemptPb → CrawlAttempt
  of_pb pb = record { tp = from_int64 pb.ts; status = pb.status }

  unfoldable pub dump : CrawlAttempts → String
  unfolding to_pb
  dump attempts = serialize (map to_pb attempts)

  unfoldable pub load : String → Result CrawlAttempts
  unfolding of_pb
  load text = elim (parse text) [
    | none ↦ throws "CrawlAttempts::CrawlAttempts parsing"
    | some pb ↦ ok (map of_pb pb)
  ]

  -- Each stored time is one that `round_secs` returned, as `add` stores them.
  abbrev pub IsRounded : CrawlAttempts → Type 0
  IsRounded = All (λ (a : CrawlAttempt). (t : Tp) × (a.tp ≡ round_secs t))

  map-of_pb-to_pb :
      (attempts : CrawlAttempts) → IsRounded attempts → map of_pb (map to_pb attempts) ≡ attempts
  unfolding of_pb to_pb
  map-of_pb-to_pb [] r = refl
  map-of_pb-to_pb (a ∷ attempts) r =
      ap₂ ◌∷◌ (λ i. record { tp = same i; status = a.status }) (map-of_pb-to_pb attempts r.1)
    where
      same : from_int64 (to_int64 a.tp) ≡ a.tp
      same = rw (r.0.1) (from-to_round r.0.0)

  -- Attempts whose times are rounded come back from their dump as they were.
  pub load-dump :
      (attempts : CrawlAttempts) → IsRounded attempts → load (dump attempts) ≡ ok attempts
  unfolding load dump
  load-dump attempts r =
      rw (parse-serialize (map to_pb attempts), load) (ap ok (map-of_pb-to_pb attempts r))
