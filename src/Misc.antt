-- ===== src/Misc.antt =====
-- src/misc is a submodule that the repository does not hold: what its helpers promise.
use Prim.Native.Char.{code}
use contentv.Prelude.{ℕ, ◌≤◌, ◌≡◌, ◌≢◌, String, List, [], ◌∷◌, ◌++◌, map, length}
use contentv.Prelude.Text.{size, ◌<>◌}
use mathlib.Core.List.{Sublistᴰ, Perm}
use contentv.Core.FreqMap.{UrlFreq}
use contentv.Core.Records.{GfqRecord}

-- `limit_vector(in, out, n)` of src/scheduler/default/EnqueueLoopFilter.cpp: some n of the elements.
pub record Limiter : Type 0 where
  pub limit_vector : List UrlFreq → ℕ → List UrlFreq
  pub length-limit_vector :
      (v : List UrlFreq) (n : ℕ) → n ≤ length v → length (limit_vector v n) ≡ n
  pub limit_vector-Sublist : (v : List UrlFreq) (n : ℕ) → Sublistᴰ (limit_vector v n) v

-- `std::sort` of both lists by `operator<`, which compares the urls, and `push_vector_minus(a, b, out)`
-- as src/worker/FetchLoop.h calls it: what is in `a` and not in `b`, up to the order and up to which
-- of several records with the same url it is.
pub record Differ : Type 0 where
  pub sorted_minus : List GfqRecord → List GfqRecord → List GfqRecord
  pub sorted_minus-Perm :
      (a b : List GfqRecord)
      → Sublistᴰ b a
      → Perm (map (λ g. g.url) (b ++ sorted_minus a b)) (map (λ g. g.url) a)

-- The scheduler, as src/scheduler/IScheduler.h shows it to a worker: it allows some of the records
-- that it is asked for.
pub record SchedulerApi : Type 1 where
  pub State : Type 0
  pub try_fetch_urls : State → List GfqRecord → State × List GfqRecord
  pub try_fetch_urls-Sublist :
      (s : State) (xs : List GfqRecord) → Sublistᴰ (try_fetch_urls s xs).1 xs

-- The characters of a text are none of them a colon.
abbrev pub HasNoColon : String → Type 0
HasNoColon String.[] = Unit
HasNoColon (String.◌∷◌ c s) = (code c ≢ 58) × HasNoColon s

-- `base64_encode`, `base64_decode`, `last_n` and `split` by a colon, as src/api/v1 uses them, and
-- `std::hash` of a text, written in decimal.
pub record Strings : Type 0 where
  pub base64_encode : String → String
  pub base64_decode : String → String
  pub last_n : String → ℕ → String
  pub split : String → List String
  pub std_hash : String → String
  pub decode-encode : (s : String) → base64_decode (base64_encode s) ≡ s
  pub size-base64_encode-le : (s : String) → size s ≤ size (base64_encode s)
  pub last_n-append : (s t : String) → last_n (s <> t) (size t) ≡ t
  pub split-append :
      (s t : String) → HasNoColon s → HasNoColon t → split (s <> ":" <> t) ≡ s ∷ t ∷ []

-- `misc::MergeQueue`, as far as it is called to push an event: what was pushed waits, in order, for
-- its thread.
pub record MergeQueue (Event : Type 0) : Type 1 where
  pub Queue : Type 0
  pub push : Queue → Event → Queue
  pub waiting : Queue → List Event
  pub waiting-push : (q : Queue) (e : Event) → waiting (push q e) ≡ waiting q ++ e ∷ []
