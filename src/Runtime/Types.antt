-- ===== src/Runtime/Types.antt =====
-- The types that rktlet/runtime passes: of the CRI (k8s.io/kubernetes/pkg/kubelet/apis/cri), with
-- the fields that rktlet reads or sets, and of rkt's API (github.com/rkt/rkt/api/v1). A pointer
-- that may be nil is an `Option`.
use rktlet.Base.{ℕ, String, Bool, true, false, Option, List, Eq}
use rktlet.Base.Dict.{Dict}
use rktlet.Base.Int.{ℤ}

pub data ContainerState : Type 0 where
  container_created container_running container_exited container_unknown : ContainerState

abbrev container_state_beq : ContainerState → ContainerState → Bool
container_state_beq container_created container_created = true
container_state_beq container_running container_running = true
container_state_beq container_exited container_exited = true
container_state_beq container_unknown container_unknown = true
container_state_beq _ _ = false

instance abbrev pub container_state_eq : Eq ContainerState
container_state_eq = record { beq = container_state_beq }

pub data SandboxState : Type 0 where
  sandbox_ready sandbox_notready : SandboxState

abbrev sandbox_state_beq : SandboxState → SandboxState → Bool
sandbox_state_beq sandbox_ready sandbox_ready = true
sandbox_state_beq sandbox_notready sandbox_notready = true
sandbox_state_beq _ _ = false

instance abbrev pub sandbox_state_eq : Eq SandboxState
sandbox_state_eq = record { beq = sandbox_state_beq }

pub record ContainerMetadata : Type 0 where
  pub name : String
  pub attempt : ℕ

pub record Container : Type 0 where
  pub id : String
  pub pod_sandbox_id : String
  pub metadata : ContainerMetadata
  pub image : String
  pub image_ref : String
  pub state : ContainerState
  pub created_at : ℤ
  pub labels : Dict
  pub annotations : Dict

pub record ContainerFilter : Type 0 where
  pub id : String
  pub state : Option ContainerState
  pub pod_sandbox_id : String
  pub label_selector : Dict

pub record MountStatus : Type 0 where
  pub container_path : String
  pub host_path : String
  pub readonly : Bool

pub record ContainerStatus : Type 0 where
  pub id : String
  pub metadata : ContainerMetadata
  pub state : ContainerState
  pub created_at : ℤ
  pub started_at : ℤ
  pub finished_at : ℤ
  pub exit_code : ℤ
  pub image : String
  pub image_ref : String
  pub labels : Dict
  pub annotations : Dict
  pub mounts : List MountStatus

pub record PodSandboxMetadata : Type 0 where
  pub name : String
  pub uid : String
  pub namespace : String
  pub attempt : ℕ

pub record PodSandboxStatus : Type 0 where
  pub id : String
  pub metadata : PodSandboxMetadata
  pub state : SandboxState
  pub created_at : ℤ
  pub ip : String
  pub labels : Dict
  pub annotations : Dict

pub record PodSandbox : Type 0 where
  pub id : String
  pub metadata : PodSandboxMetadata
  pub state : SandboxState
  pub created_at : ℤ
  pub labels : Dict

pub record PodSandboxFilter : Type 0 where
  pub id : String
  pub state : Option SandboxState
  pub label_selector : Dict

-- net.IP: its bytes, none if nil
abbrev pub Ip : Type 0
Ip = List ℕ

pub record NetInfo : Type 0 where
  pub net_name : String
  pub ip : Ip

pub record RktMount : Type 0 where
  pub container_path : String
  pub host_path : String
  pub read_only : Bool

-- An app's state is one of the texts "unknown", "created", "running" and "exited", or another.
pub record RktApp : Type 0 where
  pub name : String
  pub state : String
  pub created_at : Option ℤ
  pub started_at : Option ℤ
  pub finished_at : Option ℤ
  pub exit_code : Option ℤ
  pub image_id : String
  pub mounts : List RktMount
  pub user_annotations : Dict
  pub user_labels : Dict

pub record RktPod : Type 0 where
  pub uuid : String
  pub state : String
  pub networks : List NetInfo
  pub app_names : List String
  pub created_at : Option ℤ
  pub user_annotations : Dict
  pub user_labels : Dict
