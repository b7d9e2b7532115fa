-- ===== src/Examples/RoundTrips.antt =====
-- A container and a sandbox with a label and an annotation, and what rkt reports of them.
use rktlet.Base.{◌≡◌, refl, String, true, List, [], ◌∷◌, ok, arith}
use rktlet.Base.Chars.{cut, strip_prefix}
use rktlet.Base.Chars.Laws.{cut-eq-none}
use rktlet.Base.Decimal.{decimal, digits, digit}
use rktlet.Base.Dict.{lookup}
use rktlet.Base.Int.{decimal_int}
use rktlet.Runtime.Annotations.{is_kubernetes_pod}
use rktlet.Runtime.AppAdd.{
  generate_app_add_command, linux_args, mount_args, maybe_create_host_path_volume, mnt_volume,
  log_path_of, exec_args,
}
use rktlet.Runtime.AppAdd.RoundTrip as AppAdd
use rktlet.Runtime.AppAdd.RoundTrip.{container_roundtrip}
use rktlet.Runtime.AppAdd.Shape.{name_of}
use rktlet.Runtime.AppAdd.Types.{ContainerConfig}
use rktlet.Runtime.AppName.{build_app_name}
use rktlet.Runtime.Sandbox.{
  generate_app_sandbox_command, network_args, port_args, generate_port_args, has_host_network,
  stage1_of, log_directory, reserved_annotations,
}
use rktlet.Runtime.Sandbox.RoundTrip as Sandbox
use rktlet.Runtime.Sandbox.RoundTrip.{sandbox_roundtrip}
use rktlet.Runtime.Sandbox.Types.{PodSandboxConfig}
use rktlet.Runtime.Status.{to_container_status, to_pod_sandbox_status}
use rktlet.Runtime.Types.{ContainerStatus, PodSandboxStatus, RktApp, RktPod}
use rktlet.Runtime.UserArgs.{options_of}
use rktlet.Runtime.UserArgs.Laws.{IsMap}
use rktlet.Examples.World.{small_host, small_caps, sane, web_config, web_app, web_pod, web_sandbox}

abbrev noted_config : ContainerConfig
noted_config = record web_config {
  labels = ("tier", "front") ∷ [];
  annotations = ("note", "a=b") ∷ [];
}

abbrev noted_rest : List String
noted_rest =
    "--annotation=coreos.com/rkt/experiment/kubernetes-log-path=web.log" ∷ "--name=0-web"
    ∷ "--stdin=stream" ∷ "--stdout=stream" ∷ "--stderr=stream" ∷ "--user-annotation=note=a=b"
    ∷ "--user-annotation=k8s.io/reserved/image-name=busybox:latest" ∷ "--user-label=tier=front"
    ∷ "--mnt-volume=name=volume-1,kind=host,source=/srv,target=/data,readOnly=true" ∷ "--exec=sleep"
    ∷ "--" ∷ "10" ∷ "---" ∷ []

noted_command :
    generate_app_add_command small_host sane small_caps "pod-1" noted_config "sha512-1" 0
    ≡ (ok ("app" ∷ "add" ∷ "pod-1" ∷ "sha512-1" ∷ noted_rest), 3)
unfolding generate_app_add_command build_app_name decimal linux_args mount_args
    maybe_create_host_path_volume mnt_volume log_path_of exec_args
noted_command = refl

abbrev noted_app : RktApp
noted_app = record web_app {
  user_annotations = ("k8s.io/reserved/image-name", "busybox:latest") ∷ ("note", "a=b") ∷ [];
  user_labels = ("tier", "front") ∷ [];
}

pub noted_labels-IsMap : IsMap noted_config.labels
unfolding lookup cut
noted_labels-IsMap = (refl, cut-eq-none b'=' "tier" refl, tt)

pub noted_annotations-IsMap : IsMap noted_config.annotations
unfolding lookup cut
noted_annotations-IsMap = (refl, cut-eq-none b'=' "note" refl, tt)

app_reported : AppAdd.IsReportOf noted_rest noted_app
unfolding options_of name_of strip_prefix cut
app_reported = record { name = refl; annotations = refl; labels = refl }

container_roundtrip_example :
    (status : ContainerStatus) × (to_container_status "pod-1" noted_app ≡ ok status)
    × AppAdd.Shows sane noted_config status
container_roundtrip_example =
    container_roundtrip small_host sane small_caps "pod-1" noted_config "sha512-1" 0 3 noted_app
      noted_command (omega arith) noted_annotations-IsMap noted_labels-IsMap app_reported

abbrev pub noted_sandbox : PodSandboxConfig
noted_sandbox = record web_sandbox {
  labels = ("tier", "front") ∷ [];
  annotations = ("note", "a=b") ∷ [];
}

abbrev pub noted_args : List String
noted_args =
    "app" ∷ "--debug" ∷ "sandbox" ∷ "--uuid-file-save=/tmp/rktlet_1"
    ∷ "--annotation=coreos.com/rkt/experiment/logmode=k8s-plain"
    ∷ "--annotation=coreos.com/rkt/experiment/kubernetes-log-dir=/var/log/pods/uid-1"
    ∷ "--hostname=web" ∷ "--port=tcp-80-8080:tcp:80:0.0.0.0:8080" ∷ "--net=rkt.kubernetes.io"
    ∷ "--user-annotation=note=a=b" ∷ "--user-annotation=k8s.io/reserved/pod-uid=uid-1"
    ∷ "--user-annotation=k8s.io/reserved/pod-name=web"
    ∷ "--user-annotation=k8s.io/reserved/pod-namespace=default"
    ∷ "--user-annotation=k8s.io/reserved/pod-attempt=0" ∷ "--user-label=tier=front" ∷ []

sandbox_command :
    generate_app_sandbox_command small_host noted_sandbox "/tmp/rktlet_1" "" "rkt.kubernetes.io" 1
    ≡ (ok noted_args, 1)
unfolding generate_app_sandbox_command network_args port_args generate_port_args has_host_network
    stage1_of lookup log_directory reserved_annotations decimal digits digit decimal_int
sandbox_command = refl

abbrev pub noted_pod : RktPod
noted_pod = record web_pod {
  user_annotations =
      ("k8s.io/reserved/pod-attempt", "0")
      ∷ ("k8s.io/reserved/pod-namespace", "default")
      ∷ ("k8s.io/reserved/pod-name", "web")
      ∷ ("k8s.io/reserved/pod-uid", "uid-1")
      ∷ ("note", "a=b")
      ∷ [];
  user_labels = ("tier", "front") ∷ [];
}

pub pod_reported : Sandbox.IsReportOf noted_args noted_pod
unfolding strip_prefix cut
pod_reported = record { annotations = refl; labels = refl }

sandbox_roundtrip_example :
    (status : PodSandboxStatus) × (to_pod_sandbox_status noted_pod ≡ ok status)
    × (is_kubernetes_pod noted_pod ≡ true)
    × Sandbox.Shows noted_sandbox status
sandbox_roundtrip_example =
    sandbox_roundtrip small_host noted_sandbox "/tmp/rktlet_1" "" "rkt.kubernetes.io" 1 1 noted_pod
      sandbox_command (omega arith) noted_annotations-IsMap noted_labels-IsMap pod_reported
