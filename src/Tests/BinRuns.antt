-- ===== src/Tests/BinRuns.antt =====
-- The theorems on the programs at concrete inputs.
use contentv.Prelude.{◌≡◌, ◌↔◌, refl, inr, List, [], some, true, false}
use contentv.Prelude.Result.{ok}
use contentv.Scheduler.Stats.{inc_stats}
use contentv.Worker.FetchLoop.{JobInfo}
use contentv.Worker.FetchLoop.Stats.{run_responses}
use contentv.Bin.Args.{Given}
use contentv.Bin.{start_scheduler, start_worker, Found, contentd, sched, workd}
use contentv.Bin.Loops.{Begun, IsPlain, starts_lem}
use contentv.Bin.DryRun.{fresh}
use contentv.Tests.LoopRuns.{responses}

-- `--dry_run --config /etc/c.conf`
abbrev dry_given : Given
dry_given = record {
  help = false;
  dry_run = true;
  bazel_test = false;
  config_help = false;
  config = some "/etc/c.conf";
}

abbrev found : Found
found = record {
  act = λ a. ok tt;
  page_db_impl = "scylla";
  worker_stats = (run_responses (fresh 2) responses).0;
  scheduler_stats = inc_stats (fresh 0) (run_responses (fresh 2) responses).1;
}

abbrev in_between : List JobInfo
in_between = []

starts_lem_example :
    (Begun start_scheduler (contentd found (λ argv. ok dry_given) []).did
      ↔ (IsPlain dry_given × (true ≡ false)))
    × (Begun start_scheduler (sched found (λ argv. ok dry_given) []).did ↔ IsPlain dry_given)
    × (Begun start_worker (workd found (λ argv. ok dry_given) []).did ↔ IsPlain dry_given)
starts_lem_example =
    starts_lem found (λ argv. ok dry_given) [] dry_given (λ a. refl) refl (inr refl)
