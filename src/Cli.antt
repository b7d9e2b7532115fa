-- ===== src/Cli.antt =====
-- rktlet/cli/cli.go: how a rkt command is put together, run, and its output split into lines.
pub mod Flags
pub mod StopErrors
pub mod Systemd
pub mod Laws
pub mod Show
use rktlet.Base.{String, ◌<>◌, Option, none, some, List, [], ◌∷◌, ◌++◌, Result, ok, err}
use rktlet.Base.Chars.{split, trim_space}
use rktlet.Cli.Show.{show_args}
use rktlet.Errors.{variable_not_set}
use rktlet.Host.{Host, Act, ◌>>=◌, pure, lift, wrapped, failing}
use rktlet.Cli.Flags.{CliConfig, get_flag_form_of_struct, fields_of, merge}

-- The interface `CLI` of interfaces.go, without `With`. An error of RunCommand is its text.
pub record CliOps (h : Host) : Type 0 where
  pub command : String → List String → List String
  pub run_command : String → List String → h.State → Result String (List String) × h.State

-- The struct `cli`; its execer is the host.
pub record RktCli : Type 0 where
  pub rkt_path : String
  pub config : CliConfig
  pub global_flags : List String

unfoldable pub command : RktCli → String → List String → List String
command c sub_cmd args = ((c.rkt_path ∷ sub_cmd ∷ []) ++ c.global_flags) ++ args

-- "failed to run %v %v: %v\noutput: %s"
abbrev pub failed_to_run : String → List String → String → String → String
failed_to_run sub_cmd args error output =
    "failed to run " <> sub_cmd <> " " <> show_args args <> ": " <> error <> "\noutput: " <> output

-- strings.Split(strings.TrimSpace(output), "\n")
unfoldable pub lines : String → List String
unfolding split trim_space
lines output = split b'\n' (trim_space output)

unfoldable pub result_of :
    String → List String → String → Option String → Result String (List String)
result_of sub_cmd args output none = ok (lines output)
result_of sub_cmd args output (some e) = err (failed_to_run sub_cmd args e output)

module _ (h : Host) where
  unfoldable pub run_command :
      RktCli → String → List String → h.State → Result String (List String) × h.State
  run_command c sub_cmd args s =
      let ((output, error), s') = h.combined_output (command c sub_cmd args) s in
      (result_of sub_cmd args output error, s')

  -- The interface, as `cli` implements it.
  abbrev pub rkt_cli_ops : RktCli → CliOps h
  rkt_cli_ops c = record { command = command c; run_command = run_command c }

-- NewRktCLI, behind the two variables that it sets.
unfoldable pub new_rkt_cli : String → CliConfig → RktCli
new_rkt_cli rkt_path cfg = record {
  rkt_path = rkt_path;
  config = cfg;
  global_flags = get_flag_form_of_struct (fields_of cfg);
}

module _ (h : Host) where
  -- os.Setenv, with a panic on its error
  abbrev pub set : String → Act h.State (Unit {0})
  set name s = wrapped variable_not_set (failing (h.setenv name "true" s))

  unfoldable pub start_rkt_cli : String → CliConfig → Act h.State RktCli
  start_rkt_cli rkt_path cfg = do
    app ← set "RKT_EXPERIMENT_APP"
    attach ← set "RKT_EXPERIMENT_ATTACH"
    pure (new_rkt_cli rkt_path cfg)

  -- With: the configuration is merged before a new `cli` is made.
  unfoldable pub with_config : RktCli → CliConfig → Act h.State RktCli
  with_config c cfg = do merged ← lift (merge c.config cfg); start_rkt_cli c.rkt_path merged
