-- ===== src/Runtime/Sandbox.antt =====
-- rktlet/runtime/helpers.go: the command that runs a pod sandbox.
pub mod Types
pub mod Laws
pub mod RoundTrip
use rktlet.Base.{
  ℕ, String, ◌<>◌, Bool, true, false, not, ◌&&◌, ◌||◌, Option, none, some, List, [], ◌∷◌, ◌++◌, map,
  join, ◌==◌, nat_eq, text_eq, if◌then◌else◌, Result, ok, err,
}
use mathlib.Core.List.{reverse, tail}
use rktlet.Base.Chars.{split}
use rktlet.Base.Decimal.{decimal}
use rktlet.Base.Dict.{Dict, lookup, entries}
use rktlet.Base.Int.{ℤ, pos, negsuc, decimal_int}
use rktlet.Errors.{Error, external}
use rktlet.Host.{Host, Act, ◌>>=◌, pure, lift}
use rktlet.Runtime.Annotations.{
  anno_pod_uid, anno_pod_name, anno_pod_namespace, anno_pod_attempt, stage1_name_anno,
}
use rktlet.Runtime.Types.{PodSandboxMetadata}
use rktlet.Runtime.Sandbox.Types.{
  Protocol, tcp, udp, PortMapping, DnsConfig, SandboxSecurityContext, LinuxPodSandboxConfig,
  PodSandboxConfig,
}

-- strings.ToLower(port.Protocol.String())
abbrev protocol_name : Protocol → String
protocol_name tcp = "tcp"
protocol_name udp = "udp"

unfoldable pub generate_port_args : PortMapping → String
generate_port_args port =
    let protocol = protocol_name port.protocol in
    let host_ip = if port.host_ip == "" then "0.0.0.0" else port.host_ip in
    let name =
      protocol <> "-" <> decimal_int port.container_port <> "-" <> decimal_int port.host_port in
    "--port="
    <> name
    <> ":"
    <> protocol
    <> ":"
    <> decimal_int port.container_port
    <> ":"
    <> host_ip
    <> ":"
    <> decimal_int port.host_port

abbrev pub is_zero : ℤ → Bool
is_zero (pos n) = n == 0
is_zero (negsuc n) = false

-- A mapping without one of its ports is passed over.
unfoldable pub port_args : List PortMapping → List String
port_args [] = []
port_args (port ∷ ports) =
    let rest = port_args ports in
    if is_zero port.host_port || is_zero port.container_port
    then rest
    else generate_port_args port ∷ rest

abbrev security_context_of : PodSandboxConfig → Option SandboxSecurityContext
security_context_of config = elim config.linux [ none ↦ none | some l ↦ l.security_context ]

abbrev host_network_of : Option SandboxSecurityContext → Bool
host_network_of none = false
host_network_of (some sc) = elim sc.host_network [ none ↦ false | some b ↦ b ]

unfoldable pub has_host_network : PodSandboxConfig → Bool
has_host_network config = host_network_of (security_context_of config)

abbrev privileged_of : Option SandboxSecurityContext → Bool
privileged_of none = false
privileged_of (some sc) = sc.privileged

-- path.Clean of a path that begins with a slash.
abbrev clean_part : List String → String → List String
clean_part stack part =
    if part == "" || part == "." then stack else if part == ".." then tail stack else part ∷ stack

clean_parts : List String → List String → List String
clean_parts stack [] = reverse stack
clean_parts stack (part ∷ parts) = clean_parts (clean_part stack part) parts

-- path.Join("/var/log/pods", uid)
unfoldable pub log_directory_of : String → String
unfolding clean_parts split
log_directory_of uid = "/" <> join "/" (clean_parts [] (split b'/' ("/var/log/pods/" <> uid)))

abbrev pub some_text : String → String → List String
some_text prefix value = if value == "" then [] else (prefix <> value) ∷ []

abbrev dns_args : Option DnsConfig → List String
dns_args none = []
dns_args (some config) =
    map (λ s. "--dns=" <> s) config.servers
    ++ map (λ s. "--dns-search=" <> s) config.searches
    ++ map (λ s. "--dns-opt=" <> s) config.options

-- The annotations in which the metadata is kept.
unfoldable pub reserved_annotations : PodSandboxMetadata → List String
reserved_annotations metadata =
    (anno_pod_uid <> "=" <> metadata.uid)
    ∷ (anno_pod_name <> "=" <> metadata.name)
    ∷ (anno_pod_namespace <> "=" <> metadata.namespace)
    ∷ (anno_pod_attempt <> "=" <> decimal metadata.attempt)
    ∷ []

-- The annotation takes preference over the configuration.
unfoldable pub stage1_of : Dict → String → String
stage1_of annotations stage1_name = elim (lookup stage1_name_anno annotations) [
  | none ↦ stage1_name
  | some val ↦ val
]

-- The arguments before those for the network.
abbrev pub sandbox_options : PodSandboxConfig → String → String → String → List String
sandbox_options config uuidfile stage1_name directory =
    ("app"
      ∷ "--debug"
      ∷ "sandbox"
      ∷ ("--uuid-file-save=" <> uuidfile)
      ∷ "--annotation=coreos.com/rkt/experiment/logmode=k8s-plain"
      ∷ ("--annotation=coreos.com/rkt/experiment/kubernetes-log-dir=" <> directory)
      ∷ [])
    ++ some_text "--stage1-name=" (stage1_of config.annotations stage1_name)
    ++ some_text "--hostname=" config.hostname
    ++ dns_args config.dns_config
    ++ (if privileged_of (security_context_of config)
        then "--insecure-options=all-run" ∷ []
        else [])

-- The annotations of the request, then the reserved ones.
abbrev pub kept_annotations : Dict → PodSandboxMetadata → List String
kept_annotations annotations metadata =
    map (λ a. "--user-annotation=" <> a) (entries annotations ++ reserved_annotations metadata)

module _ (h : Host) where
  abbrev pub made : String → Option String × h.State → Result Error String × h.State
  made directory (none, s) = (ok directory, s)
  made directory (some e, s) = (err (external e), s)

  unfoldable pub log_directory : PodSandboxConfig → Act h.State String
  log_directory config s =
      if config.log_directory == ""
      then made (log_directory_of config.metadata.uid)
          (h.mkdir_all 0o770 (log_directory_of config.metadata.uid) s)
      else (ok config.log_directory, s)

  -- os.Hostname, whose error is passed over
  abbrev pub hostname_args : Result String String × h.State → Result Error (List String) × h.State
  hostname_args (ok hn, s) = (ok (("--hostname=" <> hn) ∷ []), s)
  hostname_args (err e, s) = (ok [], s)

  unfoldable pub network_args : PodSandboxConfig → String → Act h.State (List String)
  network_args config network_plugin_name =
      if has_host_network config
      then (do
        hn ← λ s. hostname_args (h.hostname s)
        pure (("--net=host" ∷ "--hosts-entry=host" ∷ []) ++ hn))
      else pure (port_args config.port_mappings ++ some_text "--net=" network_plugin_name)

  unfoldable pub generate_app_sandbox_command :
      PodSandboxConfig → String → String → String → Act h.State (List String)
  generate_app_sandbox_command config uuidfile stage1_name network_plugin_name = do
    directory ← log_directory config
    network ← network_args config network_plugin_name
    pure (
        sandbox_options config uuidfile stage1_name directory
        ++ network
        ++ kept_annotations config.annotations config.metadata
        ++ map (λ l. "--user-label=" <> l) (entries config.labels))
