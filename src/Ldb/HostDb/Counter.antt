-- ===== src/Ldb/HostDb/Counter.antt =====
-- src/ldb/HostDb.cpp: what one `_tryCrawl` does to the counter of each host.
use contentv.Prelude.{
  ℕ, ◌+◌, ◌≡◌, refl, sym, ap, ◌∙◌, subst, String, none, some, not, arith, str_eq, eq_iff,
  Bool-cases, Option-cases, inl, inr, if◌then◌else◌,
}
use contentv.Prelude.Dict.{Dict, find, insert, find-insert}
use contentv.Core.Url.{Web, UrlParsed}
use contentv.Core.HostFreq.{HostFreq, is_allowed, inc_crawling, new}
use contentv.Core.HostFreq.Laws.{is_allowed-crawling_now}
use contentv.Ldb.HostDb.{
  HostDb, Decision, allow, Clock, freq_at, is_allowed_robots, ask_freq, is_allowed_freq,
  set_crawling, try_freq, try_crawl_url,
}
use contentv.Ldb.HostDb.Permits.{granted}

-- The counter of the host.
abbrev pub counter : {Db : Type 0} → String → HostDb Db → ℕ
counter host d = (freq_at host d.host_freq).crawling_now

pub counter_insert :
    (j host : String) (h : HostFreq) (m : Dict HostFreq)
    → (freq_at j (insert host h m)).crawling_now
      ≡ (if str_eq host j then h.crawling_now else (freq_at j m).crawling_now)
unfolding freq_at
counter_insert j host h m =
    ap (λ o. (elim o as (λ _. HostFreq) [ none ↦ new | some k ↦ k ]).crawling_now)
      (find-insert host j h m)
    ∙ (elim (Bool-cases (str_eq host j)) [ inl e ↦ rw e refl | inr e ↦ rw e refl ])

-- What a decision on a url of `host` adds to the fetches of `j`.
abbrev pub added : String → String → Decision → ℕ
added j host c = if str_eq host j then granted c else 0

pub added_refused : (j host : String) (n : ℕ) → n ≡ n + (if str_eq host j then 0 else 0)
added_refused j host n = ground arith

module _ (web : Web) {Db : Type 0} (j : String) where
  counter-is_allowed_freq :
      (d : HostDb Db) (host : String) (clock : Clock)
      → counter j (is_allowed_freq web d host clock).0 ≡ counter j d
  unfolding is_allowed_freq ask_freq freq_at
  counter-is_allowed_freq d host clock = elim (Option-cases (find host d.host_freq)) [
    | inl e ↦ rw (e, is_allowed_freq) refl
    | inr (h, e) ↦
        let h' = (is_allowed d.limits clock.ask_host h).0 in
        let there : freq_at host d.host_freq ≡ h = rw (e, freq_at) refl in
        let same : counter j (record d { host_freq = insert host h' d.host_freq }) ≡ counter j d =
          counter_insert j host h' d.host_freq ∙ (elim (Bool-cases (str_eq host j)) [
            | inl t ↦
                let k : freq_at j d.host_freq ≡ h =
                  subst (λ x. freq_at x d.host_freq ≡ h) ((eq_iff host j).0 t) there in
                rw t (
                  is_allowed-crawling_now d.limits clock.ask_host h
                  ∙ ap (λ (x : HostFreq). x.crawling_now) (sym k))
            | inr t ↦ rw t refl
          ]) in
        rw (e, is_allowed_freq)
          (elim (Bool-cases (is_allowed d.limits clock.ask_host h).1) [
            | inl t ↦ rw t same
            | inr t ↦ rw t same
          ])
  ]

  counter-set_crawling :
      (d : HostDb Db) (host : String) (clock : Clock)
      → counter j (set_crawling web d host clock) ≡ counter j d + added j host allow
  unfolding set_crawling inc_crawling
  counter-set_crawling d host clock =
      counter_insert j host (inc_crawling clock.inc_host (freq_at host d.host_freq)) d.host_freq
      ∙ (elim (Bool-cases (str_eq host j)) [
        | inl t ↦ rw (t, (eq_iff host j).0 t) refl
        | inr t ↦ rw t (omega arith)
      ])

  counter-try_freq :
      (d : HostDb Db) (host : String) (clock : Clock)
      → counter j (try_freq web d host clock).0
        ≡ counter j d + added j host (try_freq web d host clock).1
  unfolding try_freq
  counter-try_freq d host clock =
      let asked = counter-is_allowed_freq d host clock in
      elim (Bool-cases (is_allowed_freq web d host clock).1) [
        | inl t ↦ rw t (
            counter-set_crawling (is_allowed_freq web d host clock).0 host clock
            ∙ ap (λ n. n + added j host allow) asked)
        | inr t ↦ rw t (asked ∙ added_refused j host (counter j d))
      ]

  pub counter-try_crawl_url :
      (d : HostDb Db) (p : UrlParsed) (clock : Clock)
      → counter j (try_crawl_url web d p clock).0
        ≡ counter j d + added j p.host (try_crawl_url web d p clock).1
  unfolding try_crawl_url
  counter-try_crawl_url d p clock = elim (Bool-cases (is_allowed_robots web d p).0) [
    | inl t ↦ rw t (counter-try_freq d p.host clock)
    | inr t ↦ rw t (elim (Bool-cases (not (str_eq (is_allowed_robots web d p).1 ""))) [
      | inl e ↦ rw e (added_refused j p.host (counter j d))
      | inr e ↦ rw e (added_refused j p.host (counter j d))
    ])
  ]
