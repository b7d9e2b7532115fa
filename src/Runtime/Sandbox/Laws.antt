-- ===== src/Runtime/Sandbox/Laws.antt =====
-- What the command that runs a sandbox holds, and how it sets up the network.
use rktlet.Base.{String, ◌<>◌, ◌||◌, List, [], ◌∷◌, ◌++◌, map, Result, ok, err, if◌then◌else◌}
use rktlet.Base.Decimal.{decimal}
use rktlet.Host.{Host}
use rktlet.Runtime.Sandbox.{generate_port_args, has_host_network, some_text, is_zero}
use rktlet.Runtime.Sandbox.Types.{PodSandboxConfig, PortMapping}
use rktlet.Runtime.Types.{PodSandboxMetadata}

-- The mappings with both of their ports.
abbrev pub complete_ports : List PortMapping → List PortMapping
complete_ports [] = []
complete_ports (port ∷ ports) =
    let rest = complete_ports ports in
    if is_zero port.host_port || is_zero port.container_port then rest else port ∷ rest

-- The metadata of a pod as annotations.
abbrev pub metadata_args : PodSandboxMetadata → List String
metadata_args metadata =
    ("--user-annotation=" <> ("k8s.io/reserved/pod-uid" <> "=" <> metadata.uid))
    ∷ ("--user-annotation=" <> ("k8s.io/reserved/pod-name" <> "=" <> metadata.name))
    ∷ ("--user-annotation=" <> ("k8s.io/reserved/pod-namespace" <> "=" <> metadata.namespace))
    ∷ ("--user-annotation=" <> ("k8s.io/reserved/pod-attempt" <> "=" <> decimal metadata.attempt))
    ∷ []

module _ (h : Host) where
  -- The host's name, if it is known.
  abbrev pub known_hostname : Result String String → List String
  known_hostname (ok hn) = ("--hostname=" <> hn) ∷ []
  known_hostname (err e) = []

  -- The arguments for the network. With the host's network no port is mapped and no plugin is
  -- named, and the host's name is given if it is known. Without it, each mapping that has both
  -- ports is given, in the order of the request, and then the plugin, if one is named.
  abbrev pub network_of : PodSandboxConfig → String → Result String String → List String
  network_of config network_plugin_name hostname =
      if has_host_network config
      then "--net=host" ∷ "--hosts-entry=host" ∷ known_hostname hostname
      else map generate_port_args (complete_ports config.port_mappings)
        ++ some_text "--net=" network_plugin_name
