-- ===== src/Runtime/Containers.antt =====
-- rktlet/runtime/rkt_runtime.go: the calls about containers.
pub mod Laws
pub mod Creation
pub mod Listing
use rktlet.Base.{
  ℕ, String, ◌<>◌, Bool, true, false, Option, none, some, List, [], ◌∷◌, ◌++◌, if◌then◌else◌,
  Result, ok, err, map_err,
}
use rktlet.Base.Chars.{has_prefix}
use rktlet.Errors.{
  Error, external, command_failed, unexpected_result, not_unmarshalled, status_not_converted,
  no_image_spec, no_default_tag, index_out_of_range, not_implemented,
}
use rktlet.Host.{Host, Act, ◌>>=◌, pure, fail, lift, wrap}
use rktlet.Cli.{CliOps}
use rktlet.Image.Name.{DockerRef, get_canonical_image_name}
use rktlet.Runtime.AppAdd.{generate_app_add_command}
use rktlet.Runtime.AppAdd.Types.{CapsLib, ContainerConfig}
use rktlet.Runtime.AppName.{build_container_id, parse_container_id, build_app_name}
use rktlet.Runtime.Annotations.{is_kubernetes_pod}
use rktlet.Runtime.Filter.{pass_filter}
use rktlet.Runtime.Status.{to_container_status}
use rktlet.Runtime.Types.{Container, ContainerFilter, ContainerStatus, RktApp, RktPod}

abbrev pub internal_app_prefix : String
internal_app_prefix = "rktletinternal-"

-- json.Unmarshal into rkt's types, which is not modelled
pub record Decoders : Type 0 where
  pub app : String → Result Error RktApp
  pub pod : String → Result Error RktPod
  pub pods : String → Result Error (List RktPod)

-- The one text of an output, behind the check of its length.
abbrev pub one_text : List String → Result Error String
one_text (text ∷ []) = ok text
one_text resp = err (unexpected_result resp)

pub record CreateContainerRequest : Type 0 where
  pub pod_sandbox_id : String
  pub config : ContainerConfig

abbrev pub to_container : RktPod → ContainerStatus → Container
to_container p status = record {
  id = status.id;
  pod_sandbox_id = p.uuid;
  metadata = status.metadata;
  image = status.image;
  image_ref = status.image_ref;
  state = status.state;
  created_at = status.created_at;
  labels = status.labels;
  annotations = status.annotations;
}

abbrev pub image_spec_of : Option String → Result Error String
image_spec_of none = err no_image_spec
image_spec_of (some image) = ok image

-- What the inner loop of ListContainers does with a status: an error is passed over.
abbrev pub add_container :
    Option ContainerFilter → RktPod → Result Error ContainerStatus → List Container → List Container
add_container filter p (err e) containers = containers
add_container filter p (ok status) containers =
    if pass_filter (to_container p status) filter
    then to_container p status ∷ containers
    else containers

module _ (h : Host) (cli : CliOps h) (sanitize : String → Result String String) where
  -- StartContainer, StopContainer and RemoveContainer differ in one word.
  unfoldable pub app_command : String → String → Act h.State (Unit {0})
  app_command verb container_id = do
    parsed ← lift (parse_container_id sanitize container_id)
    output ←
        wrap (λ e. command_failed (external e))
          (cli.run_command "app" (verb ∷ parsed.0 ∷ ("--app=" <> parsed.1) ∷ []))
    pure tt

  unfoldable pub start_container : String → Act h.State (Unit {0})
  start_container container_id = app_command "start" container_id

  unfoldable pub stop_container : String → Act h.State (Unit {0})
  stop_container container_id = app_command "stop" container_id

  unfoldable pub remove_container : String → Act h.State (Unit {0})
  remove_container container_id = app_command "rm" container_id

  module _ (decode : Decoders) where
    unfoldable pub container_status : String → Act h.State ContainerStatus
    container_status container_id = do
      parsed ← lift (parse_container_id sanitize container_id)
      resp ← wrap external (
          cli.run_command "app"
            ("status" ∷ parsed.0 ∷ ("--app=" <> parsed.1) ∷ "--format=json" ∷ []))
      text ← lift (one_text resp)
      app ← lift (map_err not_unmarshalled (decode.app text))
      lift (map_err status_not_converted (to_container_status parsed.0 app))

    unfoldable pub list_apps :
        Option ContainerFilter → RktPod → List String → h.State → List Container × h.State
    list_apps filter p [] s = ([], s)
    list_apps filter p (app_name ∷ app_names) s =
        if has_prefix app_name internal_app_prefix
        then list_apps filter p app_names s
        else (let (status, t) = container_status (build_container_id p.uuid app_name) s in
            let (containers, u) = list_apps filter p app_names t in
            (add_container filter p status containers, u))

    unfoldable pub list_pods :
        Option ContainerFilter → List RktPod → h.State → List Container × h.State
    list_pods filter [] s = ([], s)
    list_pods filter (p ∷ pods) s =
        let (here, t) : List Container × h.State =
          if is_kubernetes_pod p then list_apps filter p p.app_names s else ([], s) in
        let (later, u) = list_pods filter pods t in (here ++ later, u)

    unfoldable pub list_containers : Option ContainerFilter → Act h.State (List Container)
    list_containers filter = do
      resp ← wrap external (cli.run_command "list" ("--format=json" ∷ []))
      text ← lift (one_text resp)
      pods ← lift (map_err not_unmarshalled (decode.pods text))
      λ s. let (containers, t) = list_pods filter pods s in (ok containers, t)

  module _ (docker : DockerRef) (caps : CapsLib) where
    -- RunCommand(command[0], command[1:]...)
    abbrev run_all : List String → Act h.State (List String)
    run_all [] = fail index_out_of_range
    run_all (sub_cmd ∷ args) =
        wrap (λ e. command_failed (external e)) (cli.run_command sub_cmd args)

    unfoldable pub create_container : CreateContainerRequest → Act h.State String
    create_container req = do
      image ← lift (image_spec_of req.config.image)
      image_id ← lift (map_err (no_default_tag "") (get_canonical_image_name docker image))
      command ← generate_app_add_command h sanitize caps req.pod_sandbox_id req.config image_id
      output ← run_all command
      app_name ← lift (build_app_name sanitize req.config.attempt req.config.name)
      pure (build_container_id req.pod_sandbox_id app_name)

  unfoldable pub update_runtime_config : Act h.State (Unit {0})
  update_runtime_config = pure tt

  -- ContainerStats, ListContainerStats and UpdateContainerResources
  unfoldable pub container_stats : Act h.State (Unit {0})
  container_stats = fail not_implemented
