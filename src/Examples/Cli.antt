-- ===== src/Examples/Cli.antt =====
-- rktlet/cli: commands, flags, errors of stopping and slices.
use rktlet.Base.{
  ◌≡◌, ◌↔◌, ◌⊎◌, String, true, false, Option, none, some, List, [], ◌∷◌, ◌++◌, ok, err,
}
use rktlet.Base.Chars.{Lacks, has_suffix}
use rktlet.Errors.{not_a_slice}
use rktlet.Cli.{RktCli, run_command, failed_to_run}
use rktlet.Cli.Flags.{CliConfig, get_flag_form_of_struct, fields_of}
use rktlet.Cli.Flags.Laws.{flag, text_flag, list_flag, get_flag_form_of_struct_lem}
use rktlet.Cli.Laws.{IsLines, run_command_lem}
use rktlet.Cli.StopErrors.{rkt_stop_is_already_stopped_error, rkt_stop_is_not_exist_error}
use rktlet.Cli.StopErrors.Laws.{Matches, rkt_stop_errors_iff}
use rktlet.Cli.Systemd.{cgroup_parent_to_slice_name, path_base}
use rktlet.Cli.Systemd.Laws.{cgroup_parent_to_slice_name_lem}
use rktlet.Examples.World.{small_host}

abbrev debugging : CliConfig
debugging = record {
  debug = true;
  dir = "/var/lib/rkt";
  local_config_dir = "";
  user_config_dir = "";
  system_config_dir = "";
  insecure_options = "image" ∷ "ondisk" ∷ [];
}

get_flag_form_of_struct_lem_example :
    get_flag_form_of_struct (fields_of debugging)
    ≡ flag "debug" "true"
      ∷ (text_flag "dir" "/var/lib/rkt"
          ++ text_flag "local-config" ""
          ++ text_flag "user-config" ""
          ++ text_flag "system-config" ""
          ++ list_flag "insecure-options" ("image" ∷ "ondisk" ∷ []))
get_flag_form_of_struct_lem_example = get_flag_form_of_struct_lem debugging

abbrev rkt : RktCli
rkt = record { rkt_path = "/usr/bin/rkt"; config = debugging; global_flags = "--debug=true" ∷ [] }

run_command_lem_example :
    ((◌≡◌ {A = Option String} none none)
      × ((ls : List String) × (run_command small_host rkt "list" [] 0 ≡ (ok ls, 1))
          × IsLines "out\n" ls))
    ⊎ ((e : String) × (◌≡◌ {A = Option String} none (some e))
        × (run_command small_host rkt "list" [] 0 ≡ (err (failed_to_run "list" [] e "out\n"), 1)))
run_command_lem_example = run_command_lem small_host rkt "list" [] 0

rkt_stop_errors_iff_example :
    ((rkt_stop_is_already_stopped_error (some "pod \"1\" is already stopped") ≡ true) ↔ (
      (text : String) × (some "pod \"1\" is already stopped" ≡ some text)
      × Matches "pod \"" " is already stopped" text))
    × ((rkt_stop_is_not_exist_error (some "pod \"1\" is already stopped") ≡ true) ↔ (
        (text : String) × (some "pod \"1\" is already stopped" ≡ some text)
        × Matches "stop: cannot get pod: no matches found for \"" "" text))
rkt_stop_errors_iff_example = rkt_stop_errors_iff (some "pod \"1\" is already stopped")

cgroup_parent_to_slice_name_lem_example :
    ((slice : String)
      → (cgroup_parent_to_slice_name "/kubepods.slice/pod.slice" ≡ ok slice) ↔ (
          (slice ≡ path_base "/kubepods.slice/pod.slice")
          × (has_suffix slice ".slice" ≡ true)
          × Lacks b'/' slice))
    × ((cgroup_parent_to_slice_name "/kubepods.slice/pod.slice"
          ≡ err (not_a_slice "/kubepods.slice/pod.slice"))
        ↔ (has_suffix (path_base "/kubepods.slice/pod.slice") ".slice" ≡ false))
cgroup_parent_to_slice_name_lem_example =
    cgroup_parent_to_slice_name_lem "/kubepods.slice/pod.slice"
