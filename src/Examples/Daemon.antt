-- ===== src/Examples/Daemon.antt =====
-- cmd/server/main.go where the streaming server cannot be started: the state says whether the file
-- of the socket is there.
use rktlet.Base.{◌≡◌, ◌≢◌, refl, String, Bool, true, false, none, All, Result, ok, err, arith}
use rktlet.Errors.{external}
use rktlet.Host.{Host, exists}
use rktlet.Cli.{start_rkt_cli}
use rktlet.Image.Store.Types.{Decoders}
use rktlet.Runtime.Service.{Streaming, new_runtime}
use rktlet.Server.{Config, find_rkt, start_services, new_rktlet}
use rktlet.Server.Daemon.{DaemonOps, exited, returned, main, restarts}
use rktlet.Server.Daemon.Laws.{restarts-stuck}
use rktlet.Server.Daemon.Socket.{IsSocket}
use rktlet.Examples.World.{small_docker}

abbrev socket_host : Host
socket_host = record {
  State = Bool;
  combined_output = λ cmd s. (("", none), s);
  new_uuid = λ s. ("volume-1", s);
  stat = λ path s. (exists, s);
  mkdir_all = λ mode path s. (none, s);
  hostname = λ s. (ok "node-1", s);
  setenv = λ name value s. (none, s);
  look_path = λ name s. (ok name, s);
  temp_file = λ name s. (ok name, s);
  read_all = λ file s. (ok "", s);
  remove = λ file s. false;
  sleep = λ ms s. s;
}

abbrev taken_streaming : Streaming socket_host
taken_streaming = record {
  Server = String;
  Request = String;
  new_server = λ addr s. (err "address in use", s);
  get_attach = λ server req s. (ok req, s);
  get_exec = λ server req s. (ok req, s);
  get_port_forward = λ server req s. (ok req, s);
}

abbrev listen_once : Bool → Result String String × Bool
listen_once true = (err "address in use", true)
listen_once false = (ok "socket", true)

abbrev daemon : DaemonOps socket_host taken_streaming
daemon = record {
  Listener = String;
  GrpcServer = String;
  parse_flags = λ flags s. (record { text_of = λ name. ""; switch_of = λ name. false }, s);
  listen = λ path s. listen_once s;
  close = λ sock s. s;
  new_server = λ s. ("server", s);
  register = λ server services s. s;
  serve = λ server sock s. s;
}

abbrev no_decoders : Decoders
no_decoders = record {
  images = λ text. err (external text);
  manifest = λ text. err (external text);
}

listen_once-ok :
    (s t : Bool) {sock : String} → listen_once s ≡ (ok sock, t) → (s ≡ false) × (t ≡ true)
listen_once-ok true t e = absurd (ground arith)
listen_once-ok false t e = (refl, ground arith)

listen_once-err : (s t : Bool) {e : String} → listen_once s ≡ (err e, t) → t ≡ s
listen_once-err true t e = ground arith
listen_once-err false t e = absurd (ground arith)

socket_file : IsSocket socket_host taken_streaming daemon small_docker no_decoders
socket_file = record {
  there = λ s. s;
  listens = λ s t e. listen_once-ok s t e;
  listen_fails = λ s t e. listen_once-err s t e;
  removes = λ s. refl;
  parse_flags_keeps = λ flags s. refl;
  new_grpc_keeps = λ s. refl;
  look_path_keeps = λ name s. refl;
  stat_keeps = λ path s. refl;
  setenv_keeps = λ name value s. refl;
  combined_output_keeps = λ cmd s. refl;
  new_server_keeps = λ addr s. refl;
}

-- The flags hold empty texts.
abbrev empty_config : Config
empty_config = record {
  rkt_datadir = "";
  rkt_path = "";
  rkt_stage1_name = "";
  stream_server_address = "";
  network_plugin_name = "";
}

not_made :
    (new_rktlet socket_host taken_streaming small_docker no_decoders empty_config true).0.0
    ≡ err (external "address in use")
unfolding new_rktlet find_rkt start_services start_rkt_cli new_runtime
not_made = refl

restarts-stuck_example :
    ((main socket_host taken_streaming daemon small_docker no_decoders false).0 ≡ exited 255)
    × All
        (λ outcome. outcome ≢ returned)
        (restarts socket_host taken_streaming daemon small_docker no_decoders 3
          (main socket_host taken_streaming daemon small_docker no_decoders false).1)
restarts-stuck_example =
    restarts-stuck socket_host taken_streaming daemon small_docker no_decoders socket_file 3 false
      refl refl not_made
