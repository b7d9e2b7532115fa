-- ===== src/Runtime/Pods.antt =====
-- rktlet/runtime/pod_sandbox.go: the calls about pod sandboxes.
pub mod Laws
pub mod Poll
pub mod Run
pub mod Rkt
pub mod Started
pub mod Listed
pub mod Keeps
pub mod Leaves
pub mod Runs
use rktlet.Base.{
  ℕ, zero, suc, String, ◌<>◌, Bool, true, false, not, ◌&&◌, Option, none, some, List, [], ◌∷◌, ◌==◌,
  text_eq, if◌then◌else◌, Result, ok, err, map_err,
}
use rktlet.Errors.{
  Error, external, not_unmarshalled, status_not_converted, removed, no_uuid_read,
  sandbox_not_started, status_unknown, sandbox_timeout, index_out_of_range, nil_dereference,
}
use rktlet.Host.{Host, Act, ◌>>=◌, and_then, pure, fail, lift, wrap}
use rktlet.Cli.{CliOps}
use rktlet.Cli.StopErrors.{rkt_stop_is_already_stopped_error, rkt_stop_is_not_exist_error}
use rktlet.Cli.Systemd.{InitOps}
use rktlet.Runtime.Annotations.{is_kubernetes_pod}
use rktlet.Runtime.Containers.{Decoders, one_text}
use rktlet.Runtime.Filter.{pod_sandbox_status_matches_filter}
use rktlet.Runtime.Sandbox.{generate_app_sandbox_command}
use rktlet.Runtime.Sandbox.Types.{PodSandboxConfig}
use rktlet.Runtime.Status.{to_pod_sandbox_status}
use rktlet.Runtime.Types.{
  PodSandbox, PodSandboxFilter, PodSandboxStatus, RktPod, SandboxState, sandbox_ready,
  sandbox_notready,
}

abbrev pub show_bool : Bool → String
show_bool true = "true"
show_bool false = "false"

abbrev pub to_pod_sandbox : PodSandboxStatus → PodSandbox
to_pod_sandbox status = record {
  id = status.id;
  metadata = status.metadata;
  state = status.state;
  created_at = status.created_at;
  labels = status.labels;
}

-- A sandbox that passes the filter is put into the list.
abbrev pub keep_sandbox :
    Option PodSandboxFilter → PodSandboxStatus → List PodSandbox → List PodSandbox
keep_sandbox filter status sandboxes =
    if pod_sandbox_status_matches_filter status filter
    then to_pod_sandbox status ∷ sandboxes
    else sandboxes

abbrev pub add_sandbox :
    Option PodSandboxFilter
    → Result Error PodSandboxStatus
    → Result Error (List PodSandbox)
    → Result Error (List PodSandbox)
add_sandbox filter (err e) later = err (status_not_converted e)
add_sandbox filter (ok status) (err e) = err e
add_sandbox filter (ok status) (ok sandboxes) = ok (keep_sandbox filter status sandboxes)

-- The loop of ListPodSandbox: the first pod that cannot be converted ends it with an error.
unfoldable pub list_sandboxes :
    Option PodSandboxFilter → List RktPod → Result Error (List PodSandbox)
list_sandboxes filter [] = ok []
list_sandboxes filter (p ∷ pods) =
    let later = list_sandboxes filter pods in
    if is_kubernetes_pod p then add_sandbox filter (to_pod_sandbox_status p) later else later

module _ (h : Host) where
  -- What a read of the UUID file leads to: an error ends the loop, and so does a text.
  abbrev pub on_read :
      Result String String × h.State
      → (h.State → Result Error String × h.State)
      → Result Error String × h.State
  on_read (err e, s) again = (err (no_uuid_read (external e)), s)
  on_read (ok text, s) again = if text == "" then again (h.sleep 100 s) else (ok text, s)

  -- The loop that waits for rkt to write the UUID, with the rounds that are left; "" is what is
  -- known of the UUID when they are over.
  unfoldable pub poll_uuid : ℕ → String → Act h.State String
  poll_uuid zero file s = (ok "", s)
  poll_uuid (suc rounds) file s = on_read (h.read_all file s) (λ t. poll_uuid rounds file t)

abbrev pub started_uuid : String → String → Result Error String
started_uuid uid uuid = if uuid == "" then err (sandbox_not_started uid) else ok uuid

abbrev pub ready_id : String → PodSandboxStatus → Result Error String
ready_id uuid status = elim status.state [
  | sandbox_ready ↦ ok uuid
  | sandbox_notready ↦ err sandbox_timeout
]

module _ (h : Host) (cli : CliOps h) (decode : Decoders) where
  -- The second try of PodSandboxStatus, with no wait, where the first has failed.
  abbrev pub status_retried :
      String → Result String (List String) × h.State → Result Error (List String) × h.State
  status_retried id (ok resp, s) = (ok resp, s)
  status_retried id (err e, s) =
      wrap external (cli.run_command "status" (id ∷ "--format=json" ∷ [])) s

  unfoldable pub pod_sandbox_status : String → Act h.State PodSandboxStatus
  pod_sandbox_status id = do
    resp ← λ s.
        status_retried id
          (cli.run_command "status" (id ∷ "--format=json" ∷ "--wait-ready=10s" ∷ []) s)
    text ← lift (one_text resp)
    pod ← lift (map_err not_unmarshalled (decode.pod text))
    lift (map_err status_not_converted (to_pod_sandbox_status pod))

  -- An error of `rkt stop` that says that the pod is stopped or gone is passed over.
  abbrev ignore_stopped : Result String (List String) × h.State → Result Error (Unit {0}) × h.State
  ignore_stopped (ok output, s) = (ok tt, s)
  ignore_stopped (err e, s) =
      if not (rkt_stop_is_already_stopped_error (some e))
        && not (rkt_stop_is_not_exist_error (some e))
      then (err (external e), s)
      else (ok tt, s)

  unfoldable pub stop_pod : String → Bool → Act h.State (Unit {0})
  stop_pod id force = do
    stopped ←
        λ s. ignore_stopped (cli.run_command "stop" (("--force=" <> show_bool force) ∷ id ∷ []) s)
    status ← pod_sandbox_status id
    pure tt

  unfoldable pub stop_pod_sandbox : String → Act h.State (Unit {0})
  stop_pod_sandbox id = stop_pod id false

  -- The error that RemovePodSandbox makes of the output and the error of `rkt rm`.
  abbrev removed_with : Result String (List String) × h.State → Result Error (Unit {0}) × h.State
  removed_with (ok output, s) = (err (removed output), s)
  removed_with (err e, s) = (err (removed []), s)

  unfoldable pub remove_pod_sandbox : String → Act h.State (Unit {0})
  remove_pod_sandbox id s =
      let (stopped, t) = stop_pod id true s in removed_with (cli.run_command "rm" (id ∷ []) t)

  unfoldable pub list_pod_sandbox : Option PodSandboxFilter → Act h.State (List PodSandbox)
  list_pod_sandbox filter = do
    resp ← wrap external (cli.run_command "list" ("--format=json" ∷ []))
    text ← lift (one_text resp)
    pods ← lift (map_err not_unmarshalled (decode.pods text))
    lift (list_sandboxes filter pods)

  module _ (init : InitOps h) where
    -- StartProcess(cgroupParent, cmd[0], cmd[1:]...)
    abbrev start_all : String → List String → Act h.State String
    start_all cgroup_parent [] = fail index_out_of_range
    start_all cgroup_parent (c ∷ cmd) = init.start_process cgroup_parent c cmd

    -- r.Command(command[0], command[1:]...)
    abbrev rkt_command : List String → Result Error (List String)
    rkt_command [] = err index_out_of_range
    rkt_command (sub_cmd ∷ args) = ok (cli.command sub_cmd args)

    abbrev cgroup_parent_of : PodSandboxConfig → String
    cgroup_parent_of config = elim config.linux [ none ↦ "" | some l ↦ l.cgroup_parent ]

    -- RunPodSandbox, from the temporary file on, and up to its removal.
    unfoldable pub run_with_file : String → String → PodSandboxConfig → String → Act h.State String
    run_with_file stage1_name network_plugin_name config file = do
      command ← generate_app_sandbox_command h config file stage1_name network_plugin_name
      cmd ← lift (rkt_command command)
      id ← start_all (cgroup_parent_of config) cmd
      text ← poll_uuid h 100 file
      rkt_uuid ← lift (started_uuid config.metadata.uid text)
      status ← (λ s. wrap status_unknown (pod_sandbox_status rkt_uuid) s)
      lift (ready_id rkt_uuid status)

    -- `defer os.Remove(...)`, which takes the name of the file before the error is looked at.
    abbrev with_file :
        String
        → String
        → PodSandboxConfig
        → Result String String × h.State
        → Result Error String × h.State
    with_file stage1_name network_plugin_name config (err e, s) = (err nil_dereference, s)
    with_file stage1_name network_plugin_name config (ok file, s) =
        let (result, t) = run_with_file stage1_name network_plugin_name config file s in
        (result, h.remove file t)

    unfoldable pub run_pod_sandbox : String → String → PodSandboxConfig → Act h.State String
    run_pod_sandbox stage1_name network_plugin_name config s =
        with_file stage1_name network_plugin_name config
          (h.temp_file ("rktlet_" <> config.metadata.uid) s)
