-- ===== src/Cli/Systemd.antt =====
-- rktlet/cli/init.go: a process started by systemd-run.
pub mod Laws
use Prim.Native.String.{[], ◌∷◌}
use rktlet.Base.{
  Char, code, String, ◌<>◌, Bool, true, false, Option, none, some, List, [], ◌∷◌, ◌++◌, ◌==◌,
  nat_eq, text_eq, if◌then◌else◌, Result, ok, err, ◌&&◌,
}
use rktlet.Base.Chars.{has_suffix}
use rktlet.Errors.{Error, external, not_a_slice}
use rktlet.Host.{Host, Act, ◌>>=◌, lift}
use rktlet.Cli.Show.{show_args}

-- path.Base: the slashes at the end go, then all up to the last slash.
unfoldable pub strip_slashes : String → String
strip_slashes [] = ""
strip_slashes (c ∷ s) =
    let rest = strip_slashes s in if code c == b'/' && rest == "" then "" else c ∷ rest

-- `whole` is the text from the character behind the last slash that was passed.
unfoldable pub after_last_slash : String → String → String
after_last_slash whole [] = whole
after_last_slash whole (c ∷ s) = after_last_slash (if code c == b'/' then s else whole) s

abbrev slash_if_empty : String → String
slash_if_empty s = if s == "" then "/" else s

unfoldable pub path_base : String → String
unfolding strip_slashes after_last_slash
path_base path =
    if path == ""
    then "."
    else slash_if_empty (after_last_slash (strip_slashes path) (strip_slashes path))

unfoldable pub cgroup_parent_to_slice_name : String → Result Error String
cgroup_parent_to_slice_name cgroup_parent =
    let pod_base = path_base cgroup_parent in
    if has_suffix pod_base ".slice" then ok pod_base else err (not_a_slice cgroup_parent)

-- The interface `Init` of interfaces.go.
pub record InitOps (h : Host) : Type 0 where
  pub start_process : String → String → List String → Act h.State String

abbrev slice_arg : Result Error String → Result Error (List String)
slice_arg (ok slice) = ok (("--slice=" <> slice) ∷ [])
slice_arg (err e) = err e

-- The argument for a cgroup parent, if there is one.
unfoldable pub slice_args : String → Result Error (List String)
slice_args cgroup_parent =
    if cgroup_parent == "" then ok [] else slice_arg (cgroup_parent_to_slice_name cgroup_parent)

-- "failed to run systemd-run %v %v: %v\noutput: %s"
abbrev failed_to_start : String → List String → String → String → Error
failed_to_start command args error output = external (
    "failed to run systemd-run "
    <> command
    <> " "
    <> show_args args
    <> ": "
    <> error
    <> "\noutput: "
    <> output)

-- What the command gave.
abbrev started : String → List String → String → String × Option String → Result Error String
started command args unit (output, none) = ok unit
started command args unit (output, some e) = err (failed_to_start command args e output)

unfoldable pub cmd_list : String → String → List String → String → List String → List String
cmd_list systemd_run_path unit slice command args =
    ((systemd_run_path
        ∷ ("--unit=" <> unit)
        ∷ "--setenv=RKT_EXPERIMENT_APP=true"
        ∷ "--setenv=RKT_EXPERIMENT_ATTACH=true"
        ∷ "--service-type=notify"
        ∷ [])
      ++ slice
      ++ command ∷ [])
    ++ args

module _ (h : Host) (systemd_run_path : String) where
  abbrev new_unit : Act h.State String
  new_unit s = let (uuid, s') = h.new_uuid s in (ok ("rktlet-" <> uuid), s')

  abbrev run_unit : String → List String → String → List String → Act h.State String
  run_unit command args unit slice s =
      let (result, s') = h.combined_output (cmd_list systemd_run_path unit slice command args) s in
      (started command args unit result, s')

  unfoldable pub start_process : String → String → List String → Act h.State String
  start_process cgroup_parent command args = do
    unit ← new_unit
    slice ← lift (slice_args cgroup_parent)
    run_unit command args unit slice

  -- The interface, as `systemd` implements it.
  abbrev pub systemd_ops : InitOps h
  systemd_ops = record { start_process = start_process }
