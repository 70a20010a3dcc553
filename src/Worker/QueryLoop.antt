-- ===== src/Worker/QueryLoop.antt =====
-- src/worker/QueryLoop.cpp: `_loopImpl`, one round of the query loop.
pub mod Stored
use contentv.Prelude.{ℕ, ◌+◌, String, List, [], ◌∷◌}
use contentv.Prelude.Result.{Result, ok, throws}
use contentv.Core.QueryGroup.{Group, GroupCodec}
use contentv.Core.Matcher.{Trie, query}
use contentv.Ldb.Lvl.{LvlDb}
use contentv.Ldb.PageDb.{scan_full}
use contentv.Ldb.QueryDb.{QueryDb, get_all_qg, save_qg_hits_or_throw}

pub record LoopState (Db : Type 0) : Type 0 where
  pub query_db : QueryDb Db
  pub page_db : Db
  pub cycles_count : ℕ

module _ (lvl : LvlDb) (codec : GroupCodec) (trie : Trie) where
  -- `saveQGHits` for each of the groups: what is saved before an exception stays.
  unfoldable pub save_all : List Group → QueryDb lvl.Db → QueryDb lvl.Db × Result (Unit {0})
  save_all [] d = (d, ok tt)
  save_all (g ∷ qgs_hits) d = elim (save_qg_hits_or_throw lvl codec g d) [
    | throws what ↦ (d, throws what)
    | ok d' ↦ save_all qgs_hits d'
  ]

  -- The end of `_loopImpl`, which counts the cycle.
  unfoldable pub count_cycle :
      LoopState lvl.Db → QueryDb lvl.Db × Result (Unit {0}) → LoopState lvl.Db × Result (Unit {0})
  count_cycle s (d, throws what) = (record s { query_db = d }, throws what)
  count_cycle s (d, ok u) = (record s { query_db = d; cycles_count = s.cycles_count + 1 }, ok u)

  unfoldable pub loop_impl : LoopState lvl.Db → LoopState lvl.Db × Result (Unit {0})
  unfolding save_all count_cycle scan_full
  loop_impl s = elim (get_all_qg lvl codec s.query_db) [
    | throws what ↦ (s, throws what)
    | ok qgs ↦ count_cycle s (save_all (query trie qgs (scan_full lvl s.page_db)) s.query_db)
  ]
