-- ===== src/Runtime/Service.antt =====
-- rktlet/runtime/rkt_runtime.go, stage1.go and getImageHash of helpers.go: how the runtime service is
-- made, and the calls of it that are constant.
pub mod Laws
use rktlet.Base.{
  String, Bool, true, Option, none, some, List, [], ◌∷◌, ◌==◌, text_eq, if◌then◌else◌, Result, ok,
  err, map_err,
}
use rktlet.Errors.{
  Error, external, image_status_failed, image_not_found, image_not_fetched, malformed_stage1,
  not_implemented,
}
use rktlet.Host.{Host, Act, ◌>>=◌, pure, fail, lift, wrap}
use rktlet.Cli.{CliOps}
use rktlet.Cli.Systemd.{InitOps}
use rktlet.Image.Store.Types.{Image}

-- ImageStatus of runtimeApi.ImageServiceServer: the image, or nil.
pub record ImageService (h : Host) : Type 0 where
  pub image_status : String → Act h.State (Option Image)

-- k8s.io/kubernetes/pkg/kubelet/server/streaming: NewServer, at an address, and the calls that give
-- the URL under which a request is served
pub record Streaming (h : Host) : Type 1 where
  pub Server : Type 0
  pub Request : Type 0
  pub new_server : String → h.State → Result String Server × h.State
  pub get_attach : Server → Request → h.State → Result String String × h.State
  pub get_exec : Server → Request → h.State → Result String String × h.State
  pub get_port_forward : Server → Request → h.State → Result String String × h.State

-- RktRuntime; the shim for commands holds no more than the `cli`.
pub record RktRuntime (h : Host) (streaming : Streaming h) : Type 0 where
  pub cli : CliOps h
  pub init : InitOps h
  pub stream_server : streaming.Server
  pub image_store : ImageService h
  pub stage1_name : String
  pub network_plugin_name : String

-- The branches of getImageHash on the status.
abbrev pub hash_of :
    {S : Type 0} → String → Result Error (Option Image) × S → Result Error String × S
hash_of image_name (err e, s) = (err (image_status_failed image_name e), s)
hash_of image_name (ok none, s) = (err (image_not_found image_name), s)
hash_of image_name (ok (some image), s) = (ok image.id, s)

module _ (h : Host) where
  unfoldable pub get_image_hash : ImageService h → String → Act h.State String
  get_image_hash images image_name s = hash_of image_name (images.image_status image_name s)

  -- `len(output) < 1`
  abbrev pub check_fetched : String → List String → Result Error (Unit {0})
  check_fetched stage1_name [] = err (malformed_stage1 stage1_name [])
  check_fetched stage1_name (t ∷ output) = ok tt

  -- What follows on getImageHash: any error of it leads to a download.
  abbrev pub fetch_unless_there :
      CliOps h → String → Result Error String × h.State → Result Error (Unit {0}) × h.State
  fetch_unless_there cli stage1_name (ok hash, s) = (ok tt, s)
  fetch_unless_there cli stage1_name (err e, s) =
      (do
        output ←
            wrap (λ e. image_not_fetched stage1_name (external e))
              (cli.run_command "image"
                ("fetch" ∷ "--pull-policy=update" ∷ "--full=true" ∷ stage1_name ∷ []))
        lift (check_fetched stage1_name output))
        s

  unfoldable pub fetch_stage1_image : CliOps h → ImageService h → String → Act h.State (Unit {0})
  fetch_stage1_image cli images stage1_name s =
      if stage1_name == ""
      then (ok tt, s)
      else fetch_unless_there cli stage1_name (get_image_hash images stage1_name s)

  -- New: the streaming server is made before the image of stage1 is looked for. The goroutine that
  -- runs its Start, and ends the program by glog.Fatalf if that returns an error, is left out.
  unfoldable pub new_runtime :
      (streaming : Streaming h)
      → CliOps h
      → InitOps h
      → ImageService h
      → String
      → String
      → String
      → Act h.State (RktRuntime h streaming)
  new_runtime streaming cli init images stream_server_addr stage1_name network_plugin_name = do
    server ← wrap external (streaming.new_server stream_server_addr)
    fetched ← fetch_stage1_image cli images stage1_name
    pure (record {
      cli = cli;
      init = init;
      stream_server = server;
      image_store = images;
      stage1_name = stage1_name;
      network_plugin_name = network_plugin_name;
    })

pub record VersionResponse : Type 0 where
  pub version : String
  pub runtime_name : String
  pub runtime_version : String
  pub runtime_api_version : String

unfoldable pub version : VersionResponse
version = record {
  version = "0.1.0";
  runtime_name = "rkt";
  runtime_version = "0.1.0";
  runtime_api_version = "0.1.0";
}

-- A condition: its type and its status.
unfoldable pub status : List (String × Bool)
status = ("RuntimeReady", true) ∷ ("NetworkReady", true) ∷ []
