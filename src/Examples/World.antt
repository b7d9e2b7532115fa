-- ===== src/Examples/World.antt =====
-- A host, a rkt and a kubernetes pod to try the calls on.
use rktlet.Base.{ℕ, suc, String, ◌<>◌, true, false, none, some, List, [], ◌∷◌, Result, ok}
use rktlet.Base.Int.{pos}
use rktlet.Host.{Host, not_exist}
use rktlet.Cli.{CliOps}
use rktlet.Cli.Systemd.{InitOps}
use rktlet.Image.Name.{DockerRef}
use rktlet.Runtime.AppAdd.Types.{CapsLib, ContainerConfig, SecurityContext, Mount}
use rktlet.Runtime.Containers.{Decoders, CreateContainerRequest}
use rktlet.Runtime.Sandbox.Types.{PodSandboxConfig, PortMapping, tcp}
use rktlet.Runtime.Types.{
  Container, container_running, PodSandbox, PodSandboxStatus, sandbox_ready, RktApp, RktPod,
  PodSandboxMetadata,
}

-- The state counts what was done.
abbrev pub small_host : Host
small_host = record {
  State = ℕ;
  combined_output = λ cmd s. (("out\n", none), suc s);
  new_uuid = λ s. ("volume-1", suc s);
  stat = λ path s. (not_exist, suc s);
  mkdir_all = λ mode path s. (none, suc s);
  hostname = λ s. (ok "node-1", suc s);
  setenv = λ name value s. (none, suc s);
  look_path = λ name s. (ok ("/usr/bin/" <> name), suc s);
  temp_file = λ name s. (ok "/tmp/rktlet_1", suc s);
  read_all = λ file s. (ok "pod-1", suc s);
  remove = λ file s. suc s;
  sleep = λ ms s. suc s;
}

abbrev pub small_cli : CliOps small_host
small_cli = record {
  command = λ sub_cmd args. "rkt" ∷ sub_cmd ∷ args;
  run_command = λ sub_cmd args s. (ok ("out" ∷ []), suc s);
}

abbrev pub small_init : InitOps small_host
small_init = record {
  start_process = λ cgroup_parent command args s. (ok "rktlet-1.service", suc s);
}

-- A SanitizeACName that has nothing to do.
abbrev pub sane : String → Result String String
sane s = ok s

-- A parser to which every name is one with its tag.
abbrev pub small_docker : DockerRef
small_docker = record {
  Named = String;
  parse_normalized_named = λ s. ok s;
  is_tagged = λ n. true;
  is_digested = λ n. false;
  with_tag = λ n tag. ok (n <> ":" <> tag);
  show = λ n. n;
}

abbrev pub small_caps : CapsLib
small_caps = record {
  tweak_capabilities = λ base add drop. ok base;
  all_capabilities = "CAP_KILL" ∷ [];
}

abbrev pub web_mount : Mount
web_mount = record { container_path = "/data"; host_path = "/srv"; readonly = true }

abbrev pub web_config : ContainerConfig
web_config = record {
  name = "web";
  attempt = 0;
  image = some "busybox:latest";
  command = "sleep" ∷ [];
  args = "10" ∷ [];
  working_dir = "";
  envs = [];
  mounts = none ∷ some web_mount ∷ [];
  labels = [];
  annotations = [];
  log_path = "web.log";
  linux = none;
}

abbrev pub web_request : CreateContainerRequest
web_request = record { pod_sandbox_id = "pod-1"; config = web_config }

abbrev pub web_app : RktApp
web_app = record {
  name = "0-web";
  state = "running";
  created_at = some (pos 1);
  started_at = none;
  finished_at = none;
  exit_code = none;
  image_id = "sha512-1";
  mounts = [];
  user_annotations = [];
  user_labels = [];
}

abbrev pub web_pod : RktPod
web_pod = record {
  uuid = "pod-1";
  state = "running";
  networks = [];
  app_names = "0-web" ∷ [];
  created_at = some (pos 1);
  user_annotations =
      ("k8s.io/reserved/pod-uid", "uid-1")
      ∷ ("k8s.io/reserved/pod-name", "web")
      ∷ ("k8s.io/reserved/pod-namespace", "default")
      ∷ ("k8s.io/reserved/pod-attempt", "0")
      ∷ [];
  user_labels = [];
}

abbrev pub small_decode : Decoders
small_decode = record {
  app = λ text. ok web_app;
  pod = λ text. ok web_pod;
  pods = λ text. ok (web_pod ∷ []);
}

abbrev pub web_metadata : PodSandboxMetadata
web_metadata = record { name = "web"; uid = "uid-1"; namespace = "default"; attempt = 0 }

abbrev pub web_port : PortMapping
web_port = record { protocol = tcp; container_port = pos 80; host_port = pos 8080; host_ip = "" }

abbrev pub web_sandbox : PodSandboxConfig
web_sandbox = record {
  metadata = web_metadata;
  hostname = "web";
  log_directory = "/var/log/pods/uid-1";
  dns_config = none;
  port_mappings = web_port ∷ [];
  labels = [];
  annotations = [];
  linux = none;
}

abbrev pub web_args : List String
web_args =
    "app" ∷ "add" ∷ "pod-1" ∷ "sha512-1"
    ∷ "--annotation=coreos.com/rkt/experiment/kubernetes-log-path=web.log" ∷ "--name=0-web"
    ∷ "--stdin=stream" ∷ "--stdout=stream" ∷ "--stderr=stream"
    ∷ "--user-annotation=k8s.io/reserved/image-name=busybox:latest"
    ∷ "--mnt-volume=name=volume-1,kind=host,source=/srv,target=/data,readOnly=true" ∷ "--exec=sleep"
    ∷ "--" ∷ "10" ∷ "---" ∷ []

-- A user by number and by name.
abbrev pub both_context : SecurityContext
both_context = record {
  privileged = true;
  seccomp_profile_path = "";
  capabilities = none;
  run_as_user = some (pos 1000);
  run_as_username = "root";
  supplemental_groups = [];
  readonly_rootfs = false;
}

abbrev pub both_config : ContainerConfig
both_config = record web_config {
  linux = some (record { resources = none; security_context = some both_context });
}

abbrev pub web_container : Container
web_container = record {
  id = "pod-1:0-web";
  pod_sandbox_id = "pod-1";
  metadata = record { name = "web"; attempt = 0 };
  image = "";
  image_ref = "sha512-1";
  state = container_running;
  created_at = pos 1;
  labels = [];
  annotations = [];
}

abbrev pub sandbox_args : List String
sandbox_args =
    "app" ∷ "--debug" ∷ "sandbox" ∷ "--uuid-file-save=/tmp/rktlet_1"
    ∷ "--annotation=coreos.com/rkt/experiment/logmode=k8s-plain"
    ∷ "--annotation=coreos.com/rkt/experiment/kubernetes-log-dir=/var/log/pods/uid-1"
    ∷ "--hostname=web" ∷ "--port=tcp-80-8080:tcp:80:0.0.0.0:8080" ∷ "--net=rkt.kubernetes.io"
    ∷ "--user-annotation=k8s.io/reserved/pod-uid=uid-1"
    ∷ "--user-annotation=k8s.io/reserved/pod-name=web"
    ∷ "--user-annotation=k8s.io/reserved/pod-namespace=default"
    ∷ "--user-annotation=k8s.io/reserved/pod-attempt=0" ∷ []

abbrev pub web_sandbox_listed : PodSandbox
web_sandbox_listed = record {
  id = "pod-1";
  metadata = web_metadata;
  state = sandbox_ready;
  created_at = pos 1;
  labels = [];
}

abbrev pub web_status : PodSandboxStatus
web_status = record {
  id = "pod-1";
  metadata = web_metadata;
  state = sandbox_ready;
  created_at = pos 1;
  ip = "172.16.0.2";
  labels = [];
  annotations = [];
}
