-- ===== src/Ldb/HostDb/Permits.antt =====
-- src/ldb/HostDb.cpp: what `tryCrawl` returns.
use contentv.Prelude.{
  ℕ, suc, ◌+◌, ◌≡◌, refl, ap, subst, ◌∙◌, ◌⊎◌, String, List, [], ◌∷◌, none, some, true, arith,
  length, All, str_eq, Bool-cases, Option-cases, inl, inr, not,
}
use mathlib.Core.List.{Sublistᴰ}
use contentv.Prelude.Dict.{Dict, find}
use contentv.Core.Url.{Web, UrlParsed, url_parsed, robots_allow, is_robots_url}
use contentv.Core.Records.{GfqRecord}
use contentv.Core.HostFreq.{is_allowed, inc_crawling}
use contentv.Core.HostFreq.Laws.{is_allowed-crawling_now}
use contentv.Ldb.HostDb.{
  HostDb, Decision, allow, Clock, Tried, is_allowed_robots, ask_freq, is_allowed_freq, set_crawling,
  try_freq, try_crawl_url, tell, tell_unparsed, try_crawl_loop, try_crawl,
}

-- 1 for a permission, 0 for a refusal.
abbrev pub granted : Decision → ℕ
granted allow = 1
granted _ = 0

-- What robots.txt says of a url: it is a robots.txt itself, or its host's file is stored and lets
-- it through.
abbrev pub Permitted : Web → Dict String → UrlParsed → Type 0
Permitted web robots p =
    (is_robots_url p ≡ true)
    ⊎ ((text : String) × (find p.host robots ≡ some text)
        × (robots_allow web text p.normalized ≡ true))

module _ (web : Web) {Db : Type 0} where
  is_allowed_freq-same :
      (d : HostDb Db) (host : String) (clock : Clock)
      → ((is_allowed_freq web d host clock).0.global_freq.crawling_now ≡ d.global_freq.crawling_now)
        × ((is_allowed_freq web d host clock).0.host_robots ≡ d.host_robots)
  unfolding is_allowed_freq ask_freq
  is_allowed_freq-same d host clock = elim (Option-cases (find host d.host_freq)) [
    | inl e ↦ rw (e, is_allowed_freq) (refl, refl)
    | inr (h, e) ↦
        rw (e, is_allowed_freq)
          (elim (Bool-cases (is_allowed d.limits clock.ask_host h).1) [
            | inl t ↦ rw t (is_allowed-crawling_now d.limits clock.ask_global d.global_freq, refl)
            | inr t ↦ rw t (refl, refl)
          ])
  ]

  try_freq-same :
      (d : HostDb Db) (host : String) (clock : Clock)
      → ((try_freq web d host clock).0.global_freq.crawling_now
          ≡ d.global_freq.crawling_now + granted (try_freq web d host clock).1)
        × ((try_freq web d host clock).0.host_robots ≡ d.host_robots)
  unfolding try_freq set_crawling inc_crawling
  try_freq-same d host clock =
      let s = is_allowed_freq-same d host clock in
      elim (Bool-cases (is_allowed_freq web d host clock).1) [
        | inl t ↦ rw t (omega (arith, s.0), s.1)
        | inr t ↦ rw t (omega (arith, s.0), s.1)
      ]

  is_allowed_robots-Permitted :
      (d : HostDb Db) (p : UrlParsed)
      → (is_allowed_robots web d p).0 ≡ true
      → Permitted web d.host_robots p
  unfolding is_allowed_robots
  is_allowed_robots-Permitted d p h = elim (Bool-cases (is_robots_url p)) [
    | inl e ↦ inl e
    | inr e ↦ elim (Option-cases (find p.host d.host_robots)) [
      | inl f ↦ cc (rw (e, f, is_allowed_robots) at h)
      | inr (text, f) ↦ inr (text, f, ground (arith, h, e, f))
    ]
  ]

  try_crawl_url-same :
      (d : HostDb Db) (p : UrlParsed) (clock : Clock)
      → ((try_crawl_url web d p clock).0.global_freq.crawling_now
          ≡ d.global_freq.crawling_now + granted (try_crawl_url web d p clock).1)
        × ((try_crawl_url web d p clock).0.host_robots ≡ d.host_robots)
        × ((try_crawl_url web d p clock).1 ≡ allow → Permitted web d.host_robots p)
  unfolding try_crawl_url
  try_crawl_url-same d p clock =
      let s = try_freq-same d p.host clock in
      elim (Bool-cases (is_allowed_robots web d p).0) [
        | inl t ↦ rw t (s.0, s.1, λ a. is_allowed_robots-Permitted d p t)
        | inr t ↦ rw t (elim (Bool-cases (not (str_eq (is_allowed_robots web d p).1 ""))) [
          | inl e ↦ rw e (omega arith, refl, λ a. cc)
          | inr e ↦ rw e (omega arith, refl, λ a. cc)
        ])
      ]

-- A `tryCrawl` of `xs` that returned `r`, with `robots` stored and `running` fetches before it.
pub record IsSound (web : Web) (robots : Dict String) (running : ℕ) {Db : Type 0}
    (xs : List GfqRecord) (r : Tried Db GfqRecord) : Type 0 where
  -- one decision for each url
  pub decided : length r.decisions ≡ length xs
  -- the running fetches of the whole system grow by the number of allowed urls
  pub counted : r.state.global_freq.crawling_now ≡ running + length r.allowed
  pub same_robots : r.state.host_robots ≡ robots
  -- the allowed records are some of those asked for, in their order
  pub selected : Sublistᴰ r.allowed xs
  pub permitted :
      All
        (λ (gfq : GfqRecord).
          (p : UrlParsed) × (url_parsed web gfq.url ≡ some p) × Permitted web robots p)
        r.allowed

module _ (web : Web) (robots : Dict String) {Db : Type 0} where
  tell-IsSound :
      (running : ℕ) (c : Decision) (x : GfqRecord) (missing : String) (xs : List GfqRecord)
      (r : Tried Db GfqRecord)
      → (c ≡ allow → (p : UrlParsed) × (url_parsed web x.url ≡ some p) × Permitted web robots p)
      → IsSound web robots (running + granted c) xs r
      → IsSound web robots running (x ∷ xs) (tell c x missing r)
  unfolding tell
  tell-IsSound running allow x missing xs r h s = record {
    decided = ap suc s.decided;
    counted = omega (arith, s.counted);
    same_robots = s.same_robots;
    selected = Sublistᴰ.cons-cons refl s.selected;
    permitted = (h refl, s.permitted);
  }
  tell-IsSound running _ x missing xs r h s = record {
    decided = ap suc s.decided;
    counted = omega (arith, s.counted);
    same_robots = s.same_robots;
    selected = Sublistᴰ.cons s.selected;
    permitted = s.permitted;
  }

  unparsed-IsSound :
      (running : ℕ) (x : GfqRecord) (xs : List GfqRecord) (r : Tried Db GfqRecord)
      → IsSound web robots running xs r
      → IsSound web robots running (x ∷ xs) (tell_unparsed r)
  unfolding tell_unparsed
  unparsed-IsSound running x xs r s = record {
    decided = ap suc s.decided;
    counted = s.counted;
    same_robots = s.same_robots;
    selected = Sublistᴰ.cons s.selected;
    permitted = s.permitted;
  }

  loop-IsSound :
      (running : ℕ) (d : HostDb Db) (xs : List GfqRecord) (clock : ℕ → Clock)
      → d.global_freq.crawling_now ≡ running
      → d.host_robots ≡ robots
      → IsSound web robots running xs
          (try_crawl_loop web (λ gfq. gfq.url) (λ gfq p. gfq) d xs clock)
  unfolding try_crawl_loop
  loop-IsSound running d [] clock g b = record {
    decided = refl;
    counted = omega arith;
    same_robots = b;
    selected = Sublistᴰ.slnil;
    permitted = tt;
  }
  loop-IsSound running d (x ∷ xs) clock g b = elim (Option-cases (url_parsed web x.url)) [
    | inl e ↦
        rw (e, try_crawl_loop)
          (unparsed-IsSound running x xs _ (loop-IsSound running d xs (λ i. clock (suc i)) g b))
    | inr (p, e) ↦
        let t = try_crawl_url web d p (clock 0) in
        let s = try_crawl_url-same web d p (clock 0) in
        rw (e, try_crawl_loop)
          (tell-IsSound running t.1 x t.2 xs _
            (λ a. (p, e, subst (λ m. Permitted web m p) b (s.2 a)))
            (loop-IsSound (running + granted t.1) t.0 xs (λ i. clock (suc i))
              (omega (arith, s.0, g)) (s.1 ∙ b)))
  ]

-- `tryCrawl` on queue records: it makes one decision for each url; the records it allows are some
-- of those it was given, in their order; each of them parses, and is a robots.txt or is let through
-- by the stored robots.txt of its host; no robots.txt is changed; and the count of running fetches
-- of the whole system grows by exactly the number of allowed records.
pub try_crawl-IsSound :
    (web : Web) {Db : Type 0} (d : HostDb Db) (xs : List GfqRecord) (clock : ℕ → Clock)
    → IsSound web d.host_robots d.global_freq.crawling_now xs (try_crawl web d xs clock)
unfolding try_crawl
try_crawl-IsSound web d xs clock =
    loop-IsSound web d.host_robots d.global_freq.crawling_now d xs clock refl refl

-- A host that has no entry yet gets its first fetch whatever the limits are and however many fetches
-- run in the whole system: for a record whose url parses, whose host is new and which robots.txt
-- does not hold back, `tryCrawl` of that record alone allows it.
try_crawl_new_host :
    (web : Web) {Db : Type 0} (d : HostDb Db) (gfq : GfqRecord) (p : UrlParsed) (clock : ℕ → Clock)
    → url_parsed web gfq.url ≡ some p
    → find p.host d.host_freq ≡ none
    → (is_allowed_robots web d p).0 ≡ true
    → (try_crawl web d (gfq ∷ []) clock).allowed ≡ gfq ∷ []
unfolding try_crawl try_crawl_loop try_crawl_url try_freq is_allowed_freq tell
try_crawl_new_host web d gfq p clock parsed fresh fine = ground (arith, parsed, fresh, fine)
