-- ===== src/Runtime/AppAdd/Types.antt =====
-- The CRI's request for a new container, with the fields that rktlet reads.
use rktlet.Base.{ℕ, String, Bool, Option, List, Result}
use rktlet.Base.Dict.{Dict}
use rktlet.Base.Int.{ℤ}

pub record Capability : Type 0 where
  pub add_capabilities : List String
  pub drop_capabilities : List String

pub record SecurityContext : Type 0 where
  pub privileged : Bool
  pub seccomp_profile_path : String
  pub capabilities : Option Capability
  pub run_as_user : Option ℤ
  pub run_as_username : String
  pub supplemental_groups : List ℤ
  pub readonly_rootfs : Bool

pub record LinuxResources : Type 0 where
  pub cpu_shares : ℤ
  pub cpu_quota : ℤ
  pub cpu_period : ℤ
  pub memory_limit_in_bytes : ℤ
  pub oom_score_adj : ℤ

pub record LinuxContainerConfig : Type 0 where
  pub resources : Option LinuxResources
  pub security_context : Option SecurityContext

pub record Mount : Type 0 where
  pub container_path : String
  pub host_path : String
  pub readonly : Bool

-- The metadata and the image spec are those that CreateContainer has checked or reads unchecked.
pub record ContainerConfig : Type 0 where
  pub name : String
  pub attempt : ℕ
  -- the name of the image spec, which may be nil
  pub image : Option String
  pub command : List String
  pub args : List String
  pub working_dir : String
  pub envs : Dict
  pub mounts : List (Option Mount)
  pub labels : Dict
  pub annotations : Dict
  pub log_path : String
  pub linux : Option LinuxContainerConfig

-- github.com/docker/docker/daemon/caps: not modelled
pub record CapsLib : Type 0 where
  pub tweak_capabilities : List String → List String → List String → Result String (List String)
  pub all_capabilities : List String
