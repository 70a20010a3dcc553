-- ===== src/Tests/Instances.antt =====
-- Test instances: the web, a table on disk and the codecs.
use contentv.Prelude.{
  ℕ, zero, suc, ◌≡◌, refl, ap, ap₂, ◌∙◌, String, List, [], ◌∷◌, Option, none, some, true, length,
  str_eq, if◌then◌else◌,
}
use contentv.Prelude.Text.{codes}
use contentv.Prelude.Dict.{
  Dict, find, insert, erase, IsUnique, find-insert, find-erase, insert-IsUnique, erase-IsUnique,
}
use contentv.Core.Url.{Web}
use contentv.Core.Attempts.{
  AttemptStatus, enqueued, pending, fetched, curl_err, status_4xx, status_5xx, unrecognized,
}
use contentv.Core.Attempts.Dump.{Codec, CrawlAttemptPb}
use contentv.Core.QueryGroup.{GroupCodec}
use contentv.Ldb.CrawledDb.{status_number}
use contentv.Ldb.Store.{LevelDb}
use contentv.Tests.Texts.{encode, decode, decode-encode, unary, length-unary}

-- Every url but "bad" is on the host "h".
abbrev pub web : Web
web = record {
  ada_parse = λ url.
      if str_eq url "bad"
      then none
      else some (record { host = "h"; href = url; protocol = "https:" });
  one_agent_allowed_by_robots = λ text agent url. true;
}

abbrev pub level : LevelDb
level = record {
  Db = (m : Dict String) × IsUnique m;
  put = λ k v d. (true, (insert k v d.0, insert-IsUnique k v d.0 d.1));
  del = λ k d. (erase k d.0, erase-IsUnique k d.0 d.1);
  get = λ k d. find k d.0;
  scan = λ d. d.0;
  get-put = λ k j v d ok. find-insert k j v d.0;
  get-del = λ k j d. find-erase k j d.0;
  find-scan = λ k d. refl;
  scan-IsUnique = λ d. d.1;
}

abbrev pub empty_disk : (m : Dict String) × IsUnique m
empty_disk = ([], tt)

abbrev status_of : ℕ → AttemptStatus
status_of zero = enqueued
status_of (suc zero) = pending
status_of (suc (suc zero)) = fetched
status_of (suc (suc (suc zero))) = curl_err
status_of (suc (suc (suc (suc zero)))) = status_4xx
status_of (suc (suc (suc (suc (suc zero))))) = status_5xx
status_of (suc (suc (suc (suc (suc (suc n)))))) = unrecognized n

status_of-number : (s : AttemptStatus) → status_of (status_number s) ≡ s
status_of-number enqueued = refl
status_of-number pending = refl
status_of-number fetched = refl
status_of-number curl_err = refl
status_of-number status_4xx = refl
status_of-number status_5xx = refl
status_of-number (unrecognized n) = refl

abbrev texts_of : List CrawlAttemptPb → List String
texts_of [] = []
texts_of (a ∷ pbs) = unary a.ts ∷ unary (status_number a.status) ∷ texts_of pbs

abbrev attempts_of : List String → List CrawlAttemptPb
attempts_of [] = []
attempts_of (t ∷ []) = []
attempts_of (t ∷ s ∷ l) =
    record { ts = length (codes t); status = status_of (length (codes s)) } ∷ attempts_of l

pub attempts_of-texts_of : (pbs : List CrawlAttemptPb) → attempts_of (texts_of pbs) ≡ pbs
attempts_of-texts_of [] = refl
attempts_of-texts_of (a ∷ pbs) =
    ap₂ ◌∷◌
      (λ i. record {
        ts = length-unary a.ts i;
        status =
            (ap status_of (length-unary (status_number a.status)) ∙ status_of-number a.status) i;
      })
      (attempts_of-texts_of pbs)

abbrev pub codec : Codec
codec = record {
  serialize = λ pb. encode (texts_of pb);
  parse = λ text. some (attempts_of (decode text));
  to_int64 = λ t. t;
  from_int64 = λ n. n;
  round_secs = λ t. t;
  parse-serialize =
      λ pb. ap some (ap attempts_of (decode-encode (texts_of pb)) ∙ attempts_of-texts_of pb);
  from-to_round = λ t. refl;
}

abbrev gid_and_items : List String → Option (String × List String)
gid_and_items [] = none
gid_and_items (gid ∷ items) = some (gid, items)

abbrev pub group_codec : GroupCodec
group_codec = record {
  serialize = λ k gid items. encode (gid ∷ items);
  parse = λ k text. gid_and_items (decode text);
  parse-serialize = λ k gid items. ap gid_and_items (decode-encode (gid ∷ items));
}
