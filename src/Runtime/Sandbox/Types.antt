-- ===== src/Runtime/Sandbox/Types.antt =====
-- The CRI's request for a new sandbox, with the fields that rktlet reads.
use rktlet.Base.{String, Bool, Option, List}
use rktlet.Base.Dict.{Dict}
use rktlet.Base.Int.{ℤ}
use rktlet.Runtime.Types.{PodSandboxMetadata}

pub data Protocol : Type 0 where
  tcp udp : Protocol

pub record PortMapping : Type 0 where
  pub protocol : Protocol
  pub container_port : ℤ
  pub host_port : ℤ
  pub host_ip : String

pub record DnsConfig : Type 0 where
  pub servers : List String
  pub searches : List String
  pub options : List String

-- HostNetwork of the namespace options, if there are such.
pub record SandboxSecurityContext : Type 0 where
  pub privileged : Bool
  pub host_network : Option Bool

pub record LinuxPodSandboxConfig : Type 0 where
  pub cgroup_parent : String
  pub security_context : Option SandboxSecurityContext

pub record PodSandboxConfig : Type 0 where
  pub metadata : PodSandboxMetadata
  pub hostname : String
  pub log_directory : String
  pub dns_config : Option DnsConfig
  pub port_mappings : List PortMapping
  pub labels : Dict
  pub annotations : Dict
  pub linux : Option LinuxPodSandboxConfig
