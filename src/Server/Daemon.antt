-- ===== src/Server/Daemon.antt =====
-- cmd/server/main.go, and AddFlags of cmd/server/options/options.go: the program that serves.
pub mod Socket
pub mod New
pub mod Laws
use rktlet.Base.{ℕ, zero, suc, String, Bool, false, List, [], ◌∷◌, if◌then◌else◌, Result, ok, err}
use rktlet.Errors.{Error}
use rktlet.Host.{Host}
use rktlet.Image.Name.{DockerRef}
use rktlet.Image.Store.Types.{Decoders}
use rktlet.Runtime.Service.{Streaming}
use rktlet.Server.{Config, RktletServer, CombinedRuntimes, new_rktlet_server, new_rktlet}

abbrev pub default_unix_sock : String
default_unix_sock = "/var/run/rktlet.sock"

-- The default of a flag.
pub data FlagValue : Type 0 where
  text : String → FlagValue
  switch : Bool → FlagValue

-- AddFlags: the names of the flags and their defaults.
unfoldable pub add_flags : RktletServer → List (String × FlagValue)
add_flags s =
    ("rkt-path", text s.config.rkt_path)
    ∷ ("rkt-data-dir", text s.config.rkt_datadir)
    ∷ ("stream-server-address", text s.config.stream_server_address)
    ∷ ("rkt-stage1-name", text s.config.rkt_stage1_name)
    ∷ ("net", text "")
    ∷ ("version", switch false)
    ∷ []

-- What pflag found: the values of the flags by their names.
pub record Parsed : Type 0 where
  pub text_of : String → String
  pub switch_of : String → Bool

-- The variables that the flags set.
abbrev pub server_of : Parsed → RktletServer
server_of parsed = record {
  config = record {
    rkt_datadir = parsed.text_of "rkt-data-dir";
    rkt_path = parsed.text_of "rkt-path";
    rkt_stage1_name = parsed.text_of "rkt-stage1-name";
    stream_server_address = parsed.text_of "stream-server-address";
    network_plugin_name = parsed.text_of "net";
  };
  show_version = parsed.switch_of "version";
}

-- pflag, net and google.golang.org/grpc
pub record DaemonOps (h : Host) (streaming : Streaming h) : Type 1 where
  pub Listener : Type 0
  pub GrpcServer : Type 0
  pub parse_flags : List (String × FlagValue) → h.State → Parsed × h.State
  pub listen : String → h.State → Result String Listener × h.State
  pub close : Listener → h.State → h.State
  pub new_server : h.State → GrpcServer × h.State
  -- RegisterImageServiceServer and RegisterRuntimeServiceServer
  pub register : GrpcServer → CombinedRuntimes h streaming → h.State → h.State
  -- Serve on another goroutine, until one of the two signals comes
  pub serve : GrpcServer → Listener → h.State → h.State

-- How the program ends: by os.Exit with a code, which glog.Fatalf calls with 255 and which makes no
-- deferred call, or by the return of main.
pub data Outcome : Type 0 where
  exited : ℕ → Outcome
  returned : Outcome

module _ (h : Host) (streaming : Streaming h) (ops : DaemonOps h streaming) (docker : DockerRef)
    (decode : Decoders) where
  -- What follows on New: with services, they are served, and then the deferred calls are made.
  abbrev pub serve_with :
      ops.Listener
      → ops.GrpcServer
      → (Result Error (CombinedRuntimes h streaming) × Config) × h.State
      → Outcome × h.State
  serve_with sock server ((err e, config), s) = (exited 255, s)
  serve_with sock server ((ok services, config), s) = (
    returned,
    h.remove default_unix_sock
        (ops.close sock (ops.serve server sock (ops.register server services s))),
  )

  abbrev pub serve_on : Config → Result String ops.Listener × h.State → Outcome × h.State
  serve_on config (err e, s) = (exited 255, s)
  serve_on config (ok sock, s) =
      let (server, t) = ops.new_server s in
      serve_with sock server (new_rktlet h streaming docker decode config t)

  abbrev pub options_of : h.State → Parsed × h.State
  options_of s = ops.parse_flags (add_flags new_rktlet_server) s

  unfoldable pub main : h.State → Outcome × h.State
  main s =
      let (parsed, t) = options_of s in
      let server = server_of parsed in
      if server.show_version
      then (exited 0, t)
      else serve_on server.config (ops.listen default_unix_sock t)

  -- How the runs end that follow one another.
  unfoldable pub restarts : ℕ → h.State → List Outcome
  restarts zero s = []
  restarts (suc n) s = let (outcome, t) = main s in outcome ∷ restarts n t
