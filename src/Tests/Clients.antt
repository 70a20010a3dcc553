-- ===== src/Tests/Clients.antt =====
-- Test instances of what the HTTP API, the query store and gRPC stand on.
use Prim.Native.Char.{code}
use text.Mathlib.TextLemmas.{nil-append, cons-append}
use contentv.Prelude.{
  ℕ, ◌+◌, ◌-◌, ◌≡◌, ◌≢◌, refl, sym, ap, ◌∙◌, String, List, [], ◌∷◌, Option-cases, none, some, false,
  length, arith, ◌==◌, ==_iff, Bool-cases, inl, inr, if◌then◌else◌, str_eq,
}
use contentv.Prelude.Text.{size, drop_chars, ◌<>◌, size-append, drop_chars-append}
use contentv.Prelude.Dict.{
  Dict, find, insert, erase, IsUnique, find-insert, find-erase, insert-IsUnique, erase-IsUnique,
}
use contentv.Prelude.Result.{Result, ok, throws}
use contentv.Ldb.Lvl.{LvlDb}
use contentv.Misc.{Strings, HasNoColon}
use contentv.Scheduler.Rpc.{IScheduler}
use contentv.Tests.Texts.{push_char}

abbrev Disk : Type 0
Disk = (m : Dict String) × IsUnique m

-- A table with the key "read_only" cannot be written.
abbrev unless_read_only : Disk → Disk → Result Disk
unless_read_only d d' = elim (find "read_only" d.0) [ none ↦ ok d' | some v ↦ throws "read only" ]

abbrev write : String → String → Disk → Result Disk
write k v d = unless_read_only d (insert k v d.0, insert-IsUnique k v d.0 d.1)

abbrev delete : String → Disk → Result Disk
delete k d = unless_read_only d (erase k d.0, erase-IsUnique k d.0 d.1)

pub Disk-inj : {x y : Disk} → ok x ≡ ok y → x ≡ y
Disk-inj {x} e = ap (λ (r : Result Disk). elim r [ ok d ↦ d | throws m ↦ x ]) e

unless-eq : (d d' x : Disk) → unless_read_only d d' ≡ ok x → d' ≡ x
unless-eq d d' x e = elim (Option-cases (find "read_only" d.0)) [
  | inl n ↦ Disk-inj (rw (n, unless_read_only) at e)
  | inr (v, s) ↦ absurd (clash (rw (s, unless_read_only) at e))
]
  where
    clash : {m : String} {x : Disk} → throws m ≡ ok x → ⊥
    clash e = cc

pub load-write :
    (k j v : String) (d d' : Disk)
    → write k v d ≡ ok d'
    → find j d'.0 ≡ (if str_eq k j then some v else find j d.0)
load-write k j v d d' e =
    ap (λ (x : Disk). find j x.0) (sym (unless-eq d _ d' e)) ∙ find-insert k j v d.0

pub load-delete :
    (k j : String) (d d' : Disk)
    → delete k d ≡ ok d'
    → find j d'.0 ≡ (if str_eq k j then none else find j d.0)
load-delete k j d d' e =
    ap (λ (x : Disk). find j x.0) (sym (unless-eq d _ d' e)) ∙ find-erase k j d.0

abbrev pub lvl : LvlDb
lvl = record {
  Db = Disk;
  save = write;
  del = delete;
  load = λ k d. find k d.0;
  scan_full = λ d. d.0;
  load-save = load-write;
  load-del = load-delete;
  find-scan_full = λ k d. refl;
  scan_full-IsUnique = λ d. d.1;
}

-- The same without faults.
abbrev pub good_lvl : LvlDb
good_lvl = record {
  Db = Disk;
  save = λ k v d. ok (insert k v d.0, insert-IsUnique k v d.0 d.1);
  del = λ k d. ok (erase k d.0, erase-IsUnique k d.0 d.1);
  load = λ k d. find k d.0;
  scan_full = λ d. d.0;
  load-save =
      λ k j v d d' e. ap (λ (x : Disk). find j x.0) (sym (Disk-inj e)) ∙ find-insert k j v d.0;
  load-del = λ k j d d' e. ap (λ (x : Disk). find j x.0) (sym (Disk-inj e)) ∙ find-erase k j d.0;
  find-scan_full = λ k d. refl;
  scan_full-IsUnique = λ d. d.1;
}

abbrev split_colon : String → List String
split_colon String.[] = "" ∷ []
split_colon (String.◌∷◌ c s) =
    if code c == 58 then "" ∷ split_colon s else push_char c (split_colon s)

not_colon : (n : ℕ) → n ≢ 58 → (n == 58) ≡ false
not_colon n h = elim (Bool-cases (n == 58)) [ inl e ↦ absurd (h ((==_iff n 58).0 e)) | inr e ↦ e ]

split_one : (t : String) → HasNoColon t → split_colon t ≡ t ∷ []
split_one String.[] h = refl
split_one (String.◌∷◌ c t) h = rw (not_colon (code c) h.0) (ap (push_char c) (split_one t h.1))

pub split_two :
    (s t : String) → HasNoColon s → HasNoColon t → split_colon (s <> ":" <> t) ≡ s ∷ t ∷ []
split_two String.[] t h k =
    ap split_colon
      (nil-append (":" <> t) ∙ (cons-append ":" "" t ∙ ap (String.◌∷◌ ":") (nil-append t)))
    ∙ ap (◌∷◌ "") (split_one t k)
split_two (String.◌∷◌ c s) t h k =
    ap split_colon (cons-append c s (":" <> t))
    ∙ rw (not_colon (code c) h.0) (ap (push_char c) (split_two s t h.1 k))

abbrev ending : String → ℕ → String
ending s n = drop_chars (size s - n) s

pub ending-append : (s t : String) → ending (s <> t) (size t) ≡ t
ending-append s t =
    let e : size (s <> t) - size t ≡ size s = omega (arith, size-append s t) in
    ap (λ n. drop_chars n (s <> t)) e ∙ drop_chars-append s t

-- A coding and a hash that change nothing.
abbrev pub strings : Strings
strings = record {
  base64_encode = λ s. s;
  base64_decode = λ s. s;
  last_n = ending;
  split = split_colon;
  std_hash = λ s. s;
  decode-encode = λ s. refl;
  size-base64_encode-le = λ s. omega arith;
  last_n-append = ending-append;
  split-append = split_two;
}

-- A scheduler that allows all and counts the results.
abbrev pub counter : IScheduler
counter = record { State = ℕ; try_fetch_urls = λ s xs. (s, xs); on_fetched = λ s rs. s + length rs }
