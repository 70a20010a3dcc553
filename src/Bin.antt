-- ===== src/Bin.antt =====
-- src/bin: the three programs. `contentd` runs scheduler and worker in one process, `sched` and `workd`
-- one of them each. What the constructors and the loops of an action do to the disk, the queue and the
-- network is a parameter here: whether the action returns or throws.
pub mod Args
pub mod DryRun
pub mod Smooth
pub mod Loops
use contentv.Prelude.{
  ℕ, suc, String, List, [], ◌∷◌, Option, none, some, Bool, true, false, ◌==◌, not, ◌&&◌, ◌||◌,
  str_eq, if◌then◌else◌,
}
use contentv.Prelude.Result.{Result, ok, throws}
use contentv.Core.Records.{FetchStats, same_stats}
use contentv.Bin.Args.{
  Given, Parser, Cli, CliAction, exit_ok, parsing_error, dry_run_action, normal_run,
  contentd_parse_args, sched_parse_args, workd_parse_args,
}

-- What a program does, in the order of its body.
pub data Action : Type 0 where
  parse_config : String → Action
  init_scheduler : Bool → Bool → Action
  init_page_db : Action
  init_page_db_scylla : Action
  init_scheduler_client : Action
  init_worker : Bool → Action
  init_api : Action
  start_scheduler : Action
  start_worker : Action
  join_scheduler : Action
  join_worker : Action

-- The actions that were begun, and the exit code or the exception that leaves the body.
pub record Ran : Type 0 where
  pub did : List Action
  pub exit : Result ℕ

-- An action, and what comes behind it when it does not throw.
unfoldable pub perform : (Action → Result (Unit {0})) → Action → Ran → Ran
perform act a rest = elim (act a) [
  | throws what ↦ record { did = a ∷ []; exit = throws what }
  | ok u ↦ record { did = a ∷ rest.did; exit = rest.exit }
]

unfoldable pub perform_all : (Action → Result (Unit {0})) → List Action → Ran → Ran
unfolding perform
perform_all act [] rest = rest
perform_all act (a ∷ l) rest = perform act a (perform_all act l rest)

abbrev pub return_code : ℕ → Ran
return_code n = record { did = []; exit = ok n }

-- The configuration, whose exception is caught, and the rest of the body.
unfoldable pub with_config : (Action → Result (Unit {0})) → Cli → Ran → Ran
with_config act s rest = elim (act (parse_config s.config_path)) [
  | throws what ↦ record { did = parse_config s.config_path ∷ []; exit = ok 1 }
  | ok u ↦ record { did = parse_config s.config_path ∷ rest.did; exit = rest.exit }
]

-- What a program does for the action that its options ask for.
unfoldable pub on_action : (Action → Result (Unit {0})) → (Cli → Ran) → Cli × CliAction → Ran
unfolding with_config
on_action act body (s, exit_ok) = return_code 0
on_action act body (s, parsing_error) = return_code 1
on_action act body (s, dry_run_action) = with_config act s (body s)
on_action act body (s, normal_run) = with_config act s (body s)

-- The start of each body.
unfoldable pub configured :
    (Action → Result (Unit {0})) → (Cli → Ran) → Result (Cli × CliAction) → Ran
unfolding on_action
configured act body (throws what) = record { did = []; exit = throws what }
configured act body (ok r) = on_action act body r

-- `isStatsAnyOk`
unfoldable pub is_stats_any_ok : FetchStats → Bool
is_stats_any_ok sched_stats =
    not (sched_stats.success == 0) || not (sched_stats.robots_success == 0)

-- The exit code of a dry run; `sched_stats` has the worker's counters and `fetch_stats` the
-- scheduler's.
unfoldable pub ret_code : FetchStats → FetchStats → ℕ
unfolding same_stats is_stats_any_ok
ret_code sched_stats fetch_stats =
    if same_stats sched_stats fetch_stats && is_stats_any_ok sched_stats then 0 else 1

-- What a run finds: what its actions do, `page_db_impl` of the configuration, and the counters of the
-- worker and of the scheduler when they are asked for.
pub record Found : Type 0 where
  pub act : Action → Result (Unit {0})
  pub page_db_impl : String
  pub worker_stats : FetchStats
  pub scheduler_stats : FetchStats

-- `contentd` behind the page store.
unfoldable pub contentd_tail : Found → Cli → Ran
unfolding perform_all ret_code
contentd_tail f s = perform_all f.act (init_worker s.is_dry_run ∷ init_api ∷ []) (
    if s.is_dry_run
    then return_code (ret_code f.worker_stats f.scheduler_stats)
    else perform_all f.act (start_scheduler ∷ start_worker ∷ join_scheduler ∷ join_worker ∷ [])
        (return_code 0))

unfoldable pub contentd_body : Found → Cli → Ran
unfolding perform contentd_tail
contentd_body f s = perform f.act (init_scheduler s.is_dry_run s.is_under_bazel_test) (
    if str_eq "ldb" f.page_db_impl
    then perform f.act init_page_db (contentd_tail f s)
    else if str_eq "scylla" f.page_db_impl
    then perform f.act init_page_db_scylla (contentd_tail f s)
    else record { did = []; exit = throws "Unknown page db impl" })

-- `Contentd::operator()`
unfoldable pub contentd : Found → Parser → List String → Ran
unfolding configured contentd_body contentd_parse_args
contentd f po argv = configured f.act (contentd_body f) (contentd_parse_args po argv)

abbrev pub sched_actions : Cli → List Action
sched_actions s =
    init_scheduler s.is_dry_run s.is_under_bazel_test
    ∷ init_page_db_scylla
    ∷ init_api
    ∷ start_scheduler
    ∷ join_scheduler
    ∷ []

unfoldable pub sched_body : Found → Cli → Ran
unfolding perform_all
sched_body f s = perform_all f.act (sched_actions s) (return_code 0)

-- `Sched::operator()`
unfoldable pub sched : Found → Parser → List String → Ran
unfolding configured sched_body sched_parse_args
sched f po argv = configured f.act (sched_body f) (sched_parse_args po argv)

abbrev pub workd_actions : Cli → List Action
workd_actions s =
    init_page_db_scylla
    ∷ init_scheduler_client
    ∷ init_worker s.is_dry_run
    ∷ start_worker
    ∷ join_worker
    ∷ []

unfoldable pub workd_body : Found → Cli → Ran
unfolding perform_all
workd_body f s = perform_all f.act (workd_actions s) (return_code 0)

-- `Workd::operator()`
unfoldable pub workd : Found → Parser → List String → Ran
unfolding configured workd_body workd_parse_args
workd f po argv = configured f.act (workd_body f) (workd_parse_args po argv)
