-- ===== src/Runtime/Status.antt =====
-- rktlet/runtime/helpers.go: what rkt reports of an app or a pod, as the CRI states it.
pub mod Laws
use rktlet.Base.{
  ℕ, String, Option, none, some, map, ◌==◌, text_eq, if◌then◌else◌, Result, ok, ◌>>=◌, map_err,
}
use rktlet.Base.Int.{ℤ, pos}
use rktlet.Errors.{Error, app_name_not_parsed}
use rktlet.Runtime.AppName.{build_container_id, parse_app_name}
use rktlet.Runtime.Annotations.{
  get_image_name, get_kubernetes_annotations, get_kubernetes_labels, get_kubernetes_metadata,
}
use rktlet.Runtime.Network.{get_ip}
use rktlet.Runtime.Types.{
  ContainerState, container_created, container_running, container_exited, container_unknown,
  sandbox_ready, sandbox_notready, ContainerStatus, MountStatus, PodSandboxMetadata,
  PodSandboxStatus, RktApp, RktMount, RktPod,
}

-- nilToZero64 and nilToZero32
abbrev pub nil_to_zero : Option ℤ → ℤ
nil_to_zero none = pos 0
nil_to_zero (some i) = i

-- The switch on the app's state.
unfoldable pub to_container_state : String → ContainerState
to_container_state state =
    if state == "unknown"
    then container_unknown
    else if state == "created"
    then container_created
    else if state == "running"
    then container_running
    else if state == "exited"
    then container_exited
    else container_unknown

abbrev to_mount_status : RktMount → MountStatus
to_mount_status mnt = record {
  container_path = mnt.container_path;
  host_path = mnt.host_path;
  readonly = mnt.read_only;
}

-- The status of an app, with the attempt and the container's name that its name was parsed into.
abbrev pub container_status_of : String → RktApp → ℕ × String → ContainerStatus
container_status_of uuid app parsed = record {
  id = build_container_id uuid app.name;
  metadata = record { name = parsed.1; attempt = parsed.0 };
  state = to_container_state app.state;
  created_at = nil_to_zero app.created_at;
  started_at = nil_to_zero app.started_at;
  finished_at = nil_to_zero app.finished_at;
  exit_code = nil_to_zero app.exit_code;
  image = get_image_name app.user_annotations;
  image_ref = app.image_id;
  labels = get_kubernetes_labels app.user_labels;
  annotations = (get_kubernetes_annotations app.user_annotations).0;
  mounts = map to_mount_status app.mounts;
}

unfoldable pub to_container_status : String → RktApp → Result Error ContainerStatus
to_container_status uuid app = do
  parsed ← map_err app_name_not_parsed (parse_app_name app.name)
  ok (container_status_of uuid app parsed)

-- The status of a pod, with its metadata.
abbrev pub pod_sandbox_status_of : RktPod → PodSandboxMetadata → PodSandboxStatus
pod_sandbox_status_of pod metadata = record {
  id = pod.uuid;
  metadata = metadata;
  state = if pod.state == "running" then sandbox_ready else sandbox_notready;
  created_at = nil_to_zero pod.created_at;
  ip = get_ip pod.networks;
  labels = get_kubernetes_labels pod.user_labels;
  annotations = (get_kubernetes_annotations pod.user_annotations).0;
}

unfoldable pub to_pod_sandbox_status : RktPod → Result Error PodSandboxStatus
to_pod_sandbox_status pod = do
  metadata ← get_kubernetes_metadata pod.user_annotations
  ok (pod_sandbox_status_of pod metadata)
