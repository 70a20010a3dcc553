-- ===== src/Bin/Args.antt =====
-- src/bin: `_parseArgs`, which the three programs have alike.
use contentv.Prelude.{String, List, Option, none, some, Bool, true, false, if◌then◌else◌}
use contentv.Prelude.Result.{Result, ok, ◌>>=◌}

-- Which of the options were given.
pub record Given : Type 0 where
  pub help : Bool
  pub dry_run : Bool
  pub bazel_test : Bool
  pub config_help : Bool
  pub config : Option String

-- `boost::program_options`, a parameter: what it finds among the arguments, or the exception that it
-- throws.
abbrev pub Parser : Type 0
Parser = List String → Result Given

pub data CliAction : Type 0 where
  exit_ok parsing_error dry_run_action normal_run : CliAction

-- The members that the arguments set.
pub record Cli : Type 0 where
  pub config_path : String
  pub is_dry_run : Bool
  pub is_under_bazel_test : Bool

-- `po::notify`
unfoldable pub notify : Cli → Option String → Cli
notify s none = s
notify s (some path) = record s { config_path = path }

-- The action for the options, on the members with the path set.
unfoldable pub cli_action : Cli → Given → Cli × CliAction
cli_action s vm =
    if vm.help
    then (s, exit_ok)
    else if vm.config_help
    then (s, exit_ok)
    else if vm.dry_run
    then (record s { is_dry_run = true }, dry_run_action)
    else (record s { is_dry_run = false; is_under_bazel_test = vm.bazel_test }, normal_run)

-- `_parseArgs`
unfoldable pub parse_args : Parser → Cli → List String → Result (Cli × CliAction)
unfolding notify cli_action
parse_args po s argv = do vm ← po argv; ok (cli_action (notify s vm.config) vm)

-- The members as they are constructed, and `_parseArgs` of each program on them.
abbrev pub contentd_cli : Cli
contentd_cli = record {
  config_path = "src/bin/contentd/cli/ut/contentd_ut.conf";
  is_dry_run = false;
  is_under_bazel_test = false;
}

abbrev pub sched_cli : Cli
sched_cli = record {
  config_path = "src/bin/sched/cli/ut/sched_ut.conf";
  is_dry_run = false;
  is_under_bazel_test = false;
}

abbrev pub workd_cli : Cli
workd_cli = record {
  config_path = "src/bin/workd/cli/ut/workd_ut.conf";
  is_dry_run = false;
  is_under_bazel_test = false;
}

unfoldable pub contentd_parse_args : Parser → List String → Result (Cli × CliAction)
unfolding parse_args
contentd_parse_args po argv = parse_args po contentd_cli argv

unfoldable pub sched_parse_args : Parser → List String → Result (Cli × CliAction)
unfolding parse_args
sched_parse_args po argv = parse_args po sched_cli argv

unfoldable pub workd_parse_args : Parser → List String → Result (Cli × CliAction)
unfolding parse_args
workd_parse_args po argv = parse_args po workd_cli argv
