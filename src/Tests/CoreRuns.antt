-- ===== src/Tests/CoreRuns.antt =====
-- The theorems of the core modules at concrete inputs.
use contentv.Prelude.{
  ℕ, ◌+◌, ◌*◌, ◌≡◌, ◌↔◌, ◌≤◌, String, List, [], ◌∷◌, false, arith, All, length, map,
}
use contentv.Prelude.Dict.{IsIn}
use contentv.Core.Attempts.History.{run_add, last_ten, attempt_at, run_add-last_ten}
use contentv.Prelude.Int.{pos}
use contentv.Prelude.Sort.{IsDescending}
use contentv.Core.Sorted.{IsSorted, live}
use contentv.Core.FreqMap.{UrlTpStat, UrlFreqMap, UrlFreq, count_of, insert_visits_pack, merge, new}
use contentv.Core.FreqMap.Counts.{total, IsExact, insert_visits_pack-IsExact, new-IsExact}
use contentv.Core.FreqMap.Sliding.{Push, run_push, packs, tp_of, count-run_push}
use contentv.Core.FreqMap.Merge.{merge-IsExact}
use contentv.Core.FreqStats.{LastPerMaps, as_size}
use contentv.Core.FreqStats
use contentv.Core.FreqStats.Top.{get_top_urls_bounds}
use contentv.Core.Attempts.{CrawlAttempt, status_4xx, enqueued}
use contentv.Core.HostFreq.{CrawlLimits, Readings}
use contentv.Core.QueryGroup.{Group}
use contentv.Core.Matcher.Pages.{HasPage, query_iff}
use contentv.Core.Matcher.{query, match_text, build_state, no_state}
use contentv.Core.Matcher.Hits.{HasQuery, match_text_iff}
use contentv.Tests.Helpers.{trie}

-- A second in nanoseconds.
abbrev sec : ℕ
sec = 1000000000

abbrev pack_a : UrlTpStat
pack_a = record { url = "a"; tp = 5 * sec; cnt = 2 }

abbrev pack_b : UrlTpStat
pack_b = record { url = "b"; tp = 7 * sec; cnt = 3 }

abbrev pushes : List Push
pushes = record { pack = pack_a; now = 6 * sec } ∷ record { pack = pack_b; now = 100 * sec } ∷ []

count-run_push_example :
    count_of "a" (run_push (new 60) pushes).url_freq
    ≡ total "a" (live 60 (100 * sec) tp_of (packs pushes))
count-run_push_example =
    count-run_push 60 0 0 pushes "a"
      (omega arith, omega arith, omega arith, (omega arith, omega arith, omega arith, tt))

abbrev map_a : UrlFreqMap
map_a = insert_visits_pack (new 60) pack_a (6 * sec)

abbrev map_b : UrlFreqMap
map_b = insert_visits_pack (new 60) pack_b (8 * sec)

merge-IsExact_example :
    IsExact (merge map_a map_b)
    × IsSorted tp_of (merge map_a map_b).uts_q
    × ((u : String)
        → count_of u (merge map_a map_b).url_freq
          ≡ count_of u map_a.url_freq + count_of u map_b.url_freq)
unfolding insert_visits_pack new
merge-IsExact_example =
    merge-IsExact map_a map_b
      (insert_visits_pack-IsExact (new 60) pack_a (6 * sec) (omega arith) (new-IsExact 60))
      (insert_visits_pack-IsExact (new 60) pack_b (8 * sec) (omega arith) (new-IsExact 60)) (tt, tt)
      (tt, tt)

abbrev two_packs : UrlFreqMap
two_packs = record {
  url_freq = ("a", 2) ∷ ("b", 3) ∷ [];
  uts_q = pack_a ∷ pack_b ∷ [];
  window = 60;
}

abbrev both_maps : LastPerMaps
both_maps = record { hour_map = two_packs; day_map = two_packs }

get_top_urls_bounds_example :
    (length (FreqStats.get_top_urls both_maps (pos 1) (λ url. false)) ≤ as_size (pos 1))
    × All (λ (e : UrlFreq). false ≡ false) (FreqStats.get_top_urls both_maps (pos 1) (λ url. false))
    × IsDescending (λ (e : UrlFreq). e.1) (FreqStats.get_top_urls both_maps (pos 1) (λ url. false))
get_top_urls_bounds_example = get_top_urls_bounds both_maps (pos 1) (λ url. false)

abbrev queued : CrawlAttempt
queued = record { tp = 1; status = enqueued }

abbrev failed : CrawlAttempt
failed = record { tp = 2; status = status_4xx }

run_add-last_ten_example :
    run_add (λ t. t) [] (1 ∷ 2 ∷ 3 ∷ 4 ∷ 5 ∷ 6 ∷ 7 ∷ 8 ∷ 9 ∷ 10 ∷ 11 ∷ [])
    ≡ last_ten (map (attempt_at (λ t. t)) (1 ∷ 2 ∷ 3 ∷ 4 ∷ 5 ∷ 6 ∷ 7 ∷ 8 ∷ 9 ∷ 10 ∷ 11 ∷ []))
run_add-last_ten_example =
    run_add-last_ten (λ t. t) (1 ∷ 2 ∷ 3 ∷ 4 ∷ 5 ∷ 6 ∷ 7 ∷ 8 ∷ 9 ∷ 10 ∷ 11 ∷ [])

abbrev pub limits : CrawlLimits
limits = record {
  max_host_parallel_crawl = pos 1;
  max_host_minute_crawl = pos 2;
  max_host_hour_crawl = pos 3;
  max_host_day_crawl = pos 4;
  max_system_parallel_crawl = pos 5;
}

abbrev pub at_ten : Readings
at_ten = record { at_min = 10 * sec; at_hour = 10 * sec; at_day = 10 * sec }

abbrev news : Group
news = record { gid = "g"; items = "war" ∷ "peace" ∷ [] }

match_text_iff_example :
    IsIn "g" (match_text trie (build_state (news ∷ []) no_state) "war")
    ↔ ((q : String) × HasQuery "g" q (news ∷ []) × trie.Occurs q "war")
match_text_iff_example = match_text_iff trie (news ∷ []) "g" "war"

query_iff_example :
    HasQuery "g" "https://h/1"
      (query trie (news ∷ []) (("https://h/1", "war") ∷ ("https://h/2", "news") ∷ []))
    ↔ HasPage
        (λ content. (q : String) × HasQuery "g" q (news ∷ []) × trie.Occurs q content)
        "https://h/1"
        (("https://h/1", "war") ∷ ("https://h/2", "news") ∷ [])
query_iff_example =
    query_iff trie (news ∷ []) (("https://h/1", "war") ∷ ("https://h/2", "news") ∷ []) "g"
      "https://h/1"
