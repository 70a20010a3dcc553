-- ===== src/Worker/FetchLoop/Batch.antt =====
-- src/worker/FetchLoop.h: what `_sendToCurl` does with the urls of a batch.
use contentv.Prelude.{
  ℕ, zero, suc, ◌+◌, ◌≤◌, ◌≡◌, refl, sym, subst, ap, String, List, [], ◌∷◌, ◌++◌, map, some, arith,
  length, length-append,
}
use mathlib.Core.List.{perm_middle, Perm, append_assoc, append-nil}
use mathlib.Core.List.Perm
use contentv.Prelude.Result.{ok}
use contentv.Core.Records.{GfqRecord}
use contentv.Misc.{Differ, SchedulerApi}
use contentv.Worker.ReqBatch.{ReqBatch, get_reqs, slice-get_reqs}
use contentv.Worker.FetchLoop.{Sent, send_more, after, send_to_curl}

-- The urls of the records.
abbrev pub urls : List GfqRecord → List String
urls = map (λ g. g.url)

urls-append : (a b : List GfqRecord) → urls (a ++ b) ≡ urls a ++ urls b
urls-append [] b = refl
urls-append (x ∷ a) b = ap (◌∷◌ x.url) (urls-append a b)

append_comm : (c d : List String) → Perm (c ++ d) (d ++ c)
append_comm [] d = subst (λ x. Perm d x) (sym (append-nil d)) (Perm.refl d)
append_comm (x ∷ c) d = Perm.trans (Perm.cons x (append_comm c d)) (Perm.symm (perm_middle d c))

interchange : (c d p q : List String) → Perm ((c ++ d) ++ (p ++ q)) ((c ++ p) ++ (d ++ q))
interchange c d p q =
    subst (λ x. Perm x ((c ++ p) ++ (d ++ q))) (sym (append_assoc c d (p ++ q)))
      (subst (λ x. Perm (c ++ (d ++ (p ++ q))) x) (sym (append_assoc c p (d ++ q)))
        (Perm.append_left c (
          subst (λ x. Perm x (p ++ (d ++ q))) (append_assoc d p q)
            (subst (λ x. Perm ((d ++ p) ++ q) x) (append_assoc p d q)
              (Perm.append_right q (append_comm d p))))))

-- Two rounds, each with what was fetched and what was pushed back.
pub urls-two :
    (c p d q a b : List GfqRecord)
    → Perm (urls (c ++ p)) (urls a)
    → Perm (urls (d ++ q)) (urls b)
    → Perm (urls ((c ++ d) ++ (p ++ q))) (urls (a ++ b))
urls-two c p d q a b h k =
    rw (urls-append (c ++ d) (p ++ q), urls-append c d, urls-append p q, urls-append a b)
      (Perm.trans (interchange (urls c) (urls d) (urls p) (urls q)) (
        Perm.append (subst (λ x. Perm x (urls a)) (urls-append c p) h)
          (subst (λ x. Perm x (urls b)) (urls-append d q) k)))

module _ (api : SchedulerApi) (differ : Differ) (max_requests : ℕ) where
  open api use {State, try_fetch_urls, try_fetch_urls-Sublist}

  -- Every url of the batch is fetched or pushed back, and as often as it stands in the batch.
  abbrev pub Conserved : ReqBatch → Sent State → Type 0
  Conserved batch s = Perm (urls (s.called ++ s.pushed)) (urls batch)

  -- `_sendToCurl`, when a batch may have at least one record, ends without an exception after at most
  -- as many rounds as there are records, and every url of the batch is then fetched or pushed back,
  -- as often as it stands in the batch.
  pub send_to_curl_lem :
      (fuel : ℕ) (s : State) (batch : ReqBatch)
      → 1 ≤ max_requests
      → length batch ≤ fuel
      → (sent : Sent State) × (send_to_curl api differ max_requests fuel s batch ≡ some (ok sent))
        × Conserved batch sent
  unfolding send_to_curl after send_more
  send_to_curl_lem fuel s [] one enough =
      (record { state = s; called = []; pushed = [] }, refl, Perm.refl [])
  send_to_curl_lem zero s (r ∷ batch) one enough = absurd (omega (arith, enough))
  send_to_curl_lem (suc fuel) s (r ∷ batch) one enough =
      let cut = slice-get_reqs (r ∷ batch) max_requests in
      let tried = (get_reqs (r ∷ batch) max_requests).0 in
      let t = try_fetch_urls s tried in
      let n : length (tried ++ cut.0) ≡ length tried + length cut.0 = length-append tried cut.0 in
      let m : length (tried ++ cut.0) ≡ suc (length batch) = ap length (cut.2) in
      let rest = send_to_curl_lem fuel t.0 cut.0 one (omega (arith, n, m, enough, one, cut.3)) in
      (
        send_more t.1 (differ.sorted_minus tried t.1) rest.0,
        rw (cut.1, send_to_curl) (rw (rest.1) refl),
        subst
            (λ x.
              Perm
                (urls ((t.1 ++ rest.0.called) ++ (differ.sorted_minus tried t.1 ++ rest.0.pushed)))
                (urls x))
            (cut.2)
            (urls-two t.1 (differ.sorted_minus tried t.1) rest.0.called rest.0.pushed tried cut.0
              (differ.sorted_minus-Perm tried t.1 (try_fetch_urls-Sublist s tried)) (rest.2)),
      )
