-- ===== src/Server.antt =====
-- rktlet/rktlet.go and cmd/server/options/options.go: how the two services are put together.
pub mod Laws
pub mod Daemon
use rktlet.Base.{
  String, Bool, false, none, List, [], ◌∷◌, ◌==◌, text_eq, if◌then◌else◌, Result, ok, err,
}
use rktlet.Errors.{Error, not_installed, rkt_not_there}
use rktlet.Host.{Host, Stat, exists, not_exist, stat_failed, Act, ◌>>=◌, pure, wrapped, wrap}
use rktlet.Cli.{CliOps, rkt_cli_ops, start_rkt_cli}
use rktlet.Cli.Flags.{CliConfig}
use rktlet.Cli.Systemd.{systemd_ops}
use rktlet.Image.Name.{DockerRef}
use rktlet.Image.Store.{image_status}
use rktlet.Image.Store.Types.{Decoders}
use rktlet.Runtime.Service.{ImageService, Streaming, RktRuntime, new_runtime}

pub record Config : Type 0 where
  pub rkt_datadir : String
  pub rkt_path : String
  pub rkt_stage1_name : String
  pub stream_server_address : String
  pub network_plugin_name : String

-- DefaultConfig
abbrev pub default_config : Config
default_config = record {
  rkt_datadir = "/var/lib/rktlet/data";
  rkt_path = "";
  rkt_stage1_name = "";
  stream_server_address = "0.0.0.0:10241";
  network_plugin_name = "";
}

-- The configuration of rkt's command line.
abbrev pub cli_config : Config → CliConfig
cli_config config = record {
  debug = false;
  dir = config.rkt_datadir;
  local_config_dir = "";
  user_config_dir = "";
  system_config_dir = "";
  insecure_options = "image" ∷ "ondisk" ∷ [];
}

-- The options of the server: a configuration, and whether the version is to be shown.
pub record RktletServer : Type 0 where
  pub config : Config
  pub show_version : Bool

unfoldable pub new_rktlet_server : RktletServer
new_rktlet_server = record { config = default_config; show_version = false }

module _ (h : Host) where
  -- combinedRuntimes
  pub record CombinedRuntimes (streaming : Streaming h) : Type 0 where
    pub runtime : RktRuntime h streaming
    pub images : ImageService h

  abbrev pub with_path : Config → Result Error String × h.State → Result Error Config × h.State
  with_path config (ok path, s) = (ok (record config { rkt_path = path }), s)
  with_path config (err e, s) = (err e, s)

  -- The configuration with the path of rkt, which is looked up if it is empty.
  unfoldable pub find_rkt : Config → Act h.State Config
  find_rkt config s =
      if config.rkt_path == ""
      then with_path config (wrapped (not_installed "rkt") (h.look_path "rkt" s))
      else (ok config, s)

  -- `if _, err := os.Stat(...); err != nil`
  abbrev check_there : String → Stat × h.State → Result Error (Unit {0}) × h.State
  check_there path (exists, s) = (ok tt, s)
  check_there path (not_exist, s) = (err (rkt_not_there path), s)
  check_there path (stat_failed e, s) = (err (rkt_not_there path), s)

  module _ (streaming : Streaming h) (docker : DockerRef) (decode : Decoders) where
    -- NewImageStore, of which the runtime uses ImageStatus
    abbrev pub new_image_store : CliOps h → ImageService h
    new_image_store cli = record { image_status = image_status docker h cli decode }

    -- New, from the check of rkt's path on.
    unfoldable pub start_services : Config → Act h.State (CombinedRuntimes streaming)
    start_services config = do
      there ← λ s. check_there config.rkt_path (h.stat config.rkt_path s)
      systemd_run_path ← wrap (not_installed "systemd-run") (h.look_path "systemd-run")
      rkt_cli ← start_rkt_cli h config.rkt_path (cli_config config)
      runtime ←
          new_runtime h streaming (rkt_cli_ops h rkt_cli) (systemd_ops h systemd_run_path)
            (new_image_store (rkt_cli_ops h rkt_cli)) config.stream_server_address
            config.rkt_stage1_name config.network_plugin_name
      pure (record { runtime = runtime; images = new_image_store (rkt_cli_ops h rkt_cli) })

    abbrev start_found :
        Config
        → Result Error Config × h.State
        → (Result Error (CombinedRuntimes streaming) × Config) × h.State
    start_found config (err e, s) = ((err e, config), s)
    start_found config (ok found, s) =
        let (result, t) = start_services found s in ((result, found), t)

    -- New: its result, and what the configuration is afterwards, which it changes.
    unfoldable pub new_rktlet :
        Config → h.State → (Result Error (CombinedRuntimes streaming) × Config) × h.State
    new_rktlet config s = start_found config (find_rkt config s)
