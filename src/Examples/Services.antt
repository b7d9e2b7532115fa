-- ===== src/Examples/Services.antt =====
-- rktlet/runtime/exec.go, stage1.go, rkt_runtime.go and rktlet/rktlet.go on a small host.
use rktlet.Base.{ℕ, suc, ◌<>◌, ◌≡◌, ◌↔◌, ◌≢◌, ◌⊎◌, refl, String, none, some, [], ◌∷◌, ok, err}
use rktlet.Base.Chars.{cut, split_two}
use rktlet.Base.Int.{pos, wrap32}
use rktlet.Errors.{invalid_app_name}
use rktlet.Host.{Host, exists}
use rktlet.Cli.{start_rkt_cli, new_rkt_cli, CliOps, rkt_cli_ops}
use rktlet.Cli.Systemd.{systemd_ops}
use rktlet.Image.Store.{image_status}
use rktlet.Image.Store.Types.{Decoders}
use rktlet.Runtime.AppName.{parse_container_id}
use rktlet.Runtime.Exec.{
  Processes, exit_error, ExecSyncResponse, exec, exec_sync, exec_sync_response, new_rkt_exit_error,
  exit_status,
}
use rktlet.Runtime.Exec.Laws.{IsRun, exec_sync-ok}
use rktlet.Runtime.Service.{ImageService, Streaming, fetch_stage1_image, new_runtime}
use rktlet.Runtime.Service.Laws.{HasStage1, fetch_stage1_image_iff}
use rktlet.Server.{
  default_config, cli_config, CombinedRuntimes, find_rkt, start_services, new_rktlet,
  new_image_store,
}
use rktlet.Server.Laws.{IsPath, IsRunBy, new_rktlet-ok}
use rktlet.Examples.World.{small_host, small_cli, small_docker, sane}

-- A process that fails with the exit status 2.
abbrev failing_process : Processes small_host
failing_process = record {
  Process = ℕ;
  start = λ cmd input s. (ok s, suc s);
  start_with_tty = λ cmd input s. (ok s, suc s);
  wait = λ p s. ((some (exit_error (some (pos 2))), record { stdout = "out"; stderr = "" }), suc s);
}

abbrev answer : ExecSyncResponse
answer = record { exit_code = pos 2; stdout = "out"; stderr = "" }

ls_answered :
    exec_sync small_host small_cli failing_process sane "pod-1:0-web" ("ls" ∷ []) 0 ≡ (ok answer, 2)
unfolding exec_sync exec parse_container_id split_two cut new_rkt_exit_error exec_sync_response
    exit_status wrap32
ls_answered = refl

exec_sync-ok_example :
    (uuid app_name : String) × (parse_container_id sane "pod-1:0-web" ≡ ok (uuid, app_name))
    × IsRun small_host small_cli failing_process sane
        (small_cli.command "app" ("exec" ∷ ("--app=" <> app_name) ∷ uuid ∷ "ls" ∷ []))
        0
        2
        answer
exec_sync-ok_example =
    exec_sync-ok small_host small_cli failing_process sane "pod-1:0-web" ("ls" ∷ []) 0 2 answer
      ls_answered

-- An image service that knows of no image.
abbrev no_images : ImageService small_host
no_images = record { image_status = λ name s. (ok none, suc s) }

fetch_stage1_image_iff_example :
    (fetch_stage1_image small_host small_cli no_images "coreos.com/rkt/stage1-coreos" 0
      ≡ (ok tt, 2))
    ↔ (((◌≡◌ {A = String} "coreos.com/rkt/stage1-coreos" "") × (◌≡◌ {A = ℕ} 0 2))
        ⊎ ((◌≢◌ {A = String} "coreos.com/rkt/stage1-coreos" "")
            × HasStage1 small_host small_cli no_images "coreos.com/rkt/stage1-coreos" 0 2))
fetch_stage1_image_iff_example =
    fetch_stage1_image_iff small_host small_cli no_images "coreos.com/rkt/stage1-coreos" 0 2

abbrev undecodable : Decoders
undecodable = record {
  images = λ text. err (invalid_app_name text);
  manifest = λ text. err (invalid_app_name text);
}

-- A host on which every file is there.
abbrev installed_host : Host
installed_host = record small_host { stat = λ path s. (exists, suc s) }

abbrev installed_streaming : Streaming installed_host
installed_streaming = record {
  Server = String;
  Request = String;
  new_server = λ addr s. (ok addr, suc s);
  get_attach = λ server req s. (ok req, s);
  get_exec = λ server req s. (ok req, s);
  get_port_forward = λ server req s. (ok req, s);
}

abbrev made_cli : CliOps installed_host
made_cli = rkt_cli_ops installed_host (new_rkt_cli "/usr/bin/rkt" (cli_config default_config))

abbrev made_images : ImageService installed_host
made_images = new_image_store installed_host installed_streaming small_docker undecodable made_cli

abbrev made_services : CombinedRuntimes installed_host installed_streaming
made_services = record {
  runtime = record {
    cli = made_cli;
    init = systemd_ops installed_host "/usr/bin/systemd-run";
    stream_server = "0.0.0.0:10241";
    image_store = made_images;
    stage1_name = "";
    network_plugin_name = "";
  };
  images = made_images;
}

server_made :
    (new_rktlet installed_host installed_streaming small_docker undecodable default_config 0).0.0
    ≡ ok made_services
unfolding new_rktlet find_rkt start_services start_rkt_cli new_runtime fetch_stage1_image
server_made = refl

new_rktlet-ok_example :
    (path : String) × (cli : CliOps installed_host) × IsPath installed_host default_config 0 path
    × ((new_rktlet installed_host installed_streaming small_docker undecodable default_config 0).0.1
        ≡ record default_config { rkt_path = path })
    × IsRunBy installed_host (record default_config { rkt_path = path }) cli
    × (made_services.runtime.cli ≡ cli)
    × (made_services.images
        ≡ record { image_status = image_status small_docker installed_host cli undecodable })
    × (made_services.runtime.image_store ≡ made_services.images)
new_rktlet-ok_example =
    new_rktlet-ok installed_host installed_streaming small_docker undecodable default_config 0
      server_made
