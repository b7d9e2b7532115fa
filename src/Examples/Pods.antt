-- ===== src/Examples/Pods.antt =====
-- rktlet/runtime: the calls about sandboxes on a small host.
use text.Mathlib.TextLemmas.{cons≢nil}
use rktlet.Base.{ℕ, ◌≡◌, ◌≢◌, ◌↔◌, refl, String, true, none, List, [], ◌∷◌, All₂, ok, err}
use rktlet.Base.Decimal.{digit, digits, decimal, parse_uint, parse_digits}
use rktlet.Base.Dict.{lookup, get, delete}
use rktlet.Base.Int.{decimal_int}
use rktlet.Errors.{removed}
use rktlet.Runtime.Annotations.{
  is_kubernetes_pod, get_kubernetes_labels, get_kubernetes_annotations, get_kubernetes_metadata,
  delete_all,
}
use rktlet.Runtime.Filter.{pod_sandbox_status_matches_filter}
use rktlet.Runtime.Pods.{
  stop_pod, remove_pod_sandbox, run_pod_sandbox, run_with_file, pod_sandbox_status, poll_uuid,
  list_sandboxes,
}
use rktlet.Runtime.Pods.Laws.{
  kubernetes_pods, matching, IsStatusOf, IsStopped, list_sandboxes-ok, remove_pod_sandbox-fails,
  stop_pod-ok, run_pod_sandbox-ok,
}
use rktlet.Runtime.Pods.Poll.{Reads, poll_uuid_iff}
use rktlet.Runtime.Sandbox.{
  generate_app_sandbox_command, network_args, port_args, generate_port_args, has_host_network,
  stage1_of, log_directory, reserved_annotations,
}
use rktlet.Runtime.Status.{to_pod_sandbox_status}
use rktlet.Runtime.Types.{PodSandboxStatus, sandbox_ready}
use rktlet.Examples.World.{
  small_host, small_cli, small_decode, small_init, web_pod, web_sandbox, web_sandbox_listed,
}

web_stopped : stop_pod small_host small_cli small_decode "pod-1" true 0 ≡ (ok tt, 2)
unfolding stop_pod pod_sandbox_status to_pod_sandbox_status get_kubernetes_metadata get lookup
    parse_uint parse_digits digit
web_stopped = refl

stop_pod-ok_example :
    (u : ℕ) × (status : PodSandboxStatus) × IsStopped small_host small_cli small_decode
      (small_cli.run_command "stop" ("--force=true" ∷ "pod-1" ∷ []) 0).0
    × ((small_cli.run_command "stop" ("--force=true" ∷ "pod-1" ∷ []) 0).1 ≡ u)
    × (pod_sandbox_status small_host small_cli small_decode "pod-1" u ≡ (ok status, 2))
stop_pod-ok_example = stop_pod-ok small_host small_cli small_decode "pod-1" true 0 2 web_stopped

remove_pod_sandbox-fails_example :
    (output : List String) × (remove_pod_sandbox small_host small_cli small_decode "pod-1" 0 ≡ (
      err (removed output),
      (small_cli.run_command "rm"
          ("pod-1" ∷ [])
          (stop_pod small_host small_cli small_decode "pod-1" true 0).1).1,
    ))
remove_pod_sandbox-fails_example =
    remove_pod_sandbox-fails small_host small_cli small_decode "pod-1" 0

poll_uuid_iff_example :
    (poll_uuid small_host 2 "/tmp/rktlet_1" 0 ≡ (ok "pod-1", 1))
    ↔ Reads small_host "/tmp/rktlet_1" 2 "pod-1" 0 1
poll_uuid_iff_example = poll_uuid_iff small_host "/tmp/rktlet_1" 2 "pod-1" 0 1 cons≢nil

web_run :
    run_pod_sandbox small_host small_cli small_decode small_init "" "rkt.kubernetes.io" web_sandbox
      0
    ≡ (ok "pod-1", 5)
unfolding run_pod_sandbox run_with_file poll_uuid generate_app_sandbox_command network_args
    port_args generate_port_args has_host_network stage1_of lookup log_directory
    reserved_annotations decimal digits digit decimal_int pod_sandbox_status to_pod_sandbox_status
    get_kubernetes_metadata get parse_uint parse_digits
web_run = refl

run_pod_sandbox-ok_example :
    (file : String) × (status : PodSandboxStatus) × (u v w x : ℕ) × (small_host.temp_file
        "rktlet_uid-1" 0
      ≡ (ok file, u))
    × (◌≢◌ {A = String} "pod-1" "")
    × (poll_uuid small_host 100 file v ≡ (ok "pod-1", w))
    × (pod_sandbox_status small_host small_cli small_decode "pod-1" w ≡ (ok status, x))
    × (status.state ≡ sandbox_ready)
    × (5 ≡ small_host.remove file x)
run_pod_sandbox-ok_example =
    run_pod_sandbox-ok small_host small_cli small_decode small_init "" "rkt.kubernetes.io"
      web_sandbox 0 5 web_run

web_listed : list_sandboxes none (web_pod ∷ []) ≡ ok (web_sandbox_listed ∷ [])
unfolding list_sandboxes is_kubernetes_pod lookup to_pod_sandbox_status get_kubernetes_metadata get
    parse_uint parse_digits digit get_kubernetes_labels get_kubernetes_annotations delete_all delete
    pod_sandbox_status_matches_filter
web_listed = refl

web_counted : is_kubernetes_pod web_pod ≡ true
unfolding is_kubernetes_pod lookup
web_counted = refl

list_sandboxes-ok_example :
    (statuses : List PodSandboxStatus) × All₂ IsStatusOf (kubernetes_pods (web_pod ∷ [])) statuses
    × (web_sandbox_listed ∷ [] ≡ matching none statuses)
list_sandboxes-ok_example = list_sandboxes-ok none (web_pod ∷ []) web_listed
