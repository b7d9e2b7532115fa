-- ===== src/Examples/Runtime.antt =====
-- rktlet/runtime: the calls on a small host.
use rktlet.Base.{
  map, some, ℕ, inr, ◌≡◌, refl, String, ◌<>◌, none, List, [], ◌∷◌, All, All₂, Has, ok, err,
}
use rktlet.Base.Chars.{cut, split_two, Lacks, has_prefix, strip_prefix, trim_prefix}
use rktlet.Base.Chars.Laws.{cut-eq-none}
use rktlet.Base.Decimal.{digit, decimal, parse_uint, parse_digits}
use rktlet.Base.Dict.{lookup, get}
use rktlet.Errors.{Error}
use rktlet.Image.Name.{get_canonical_image_name, apply_default_image_tag, is_hash}
use rktlet.Runtime.AppAdd.{
  generate_app_add_command, linux_args, mount_args, maybe_create_host_path_volume, mnt_volume,
  log_path_of, exec_args,
}
use rktlet.Runtime.AppName.{build_container_id, parse_container_id, build_app_name, parse_app_name}
use rktlet.Runtime.Containers.{
  create_container, list_containers, list_pods, list_apps, container_status,
}
use rktlet.Runtime.Containers.Creation.{AreUsable, answered, create_container-answered}
use rktlet.Runtime.Containers.Listing.{
  Question, AreAsked, app_of, apps_of, listed, list_containers-ok,
}
use rktlet.Runtime.AppAdd.Shape.{IsVolumeOf, name_of, generate_app_add_command-ok}
use rktlet.Runtime.AppAdd.Laws.{generate_app_add_command-both}
use rktlet.Runtime.Annotations.{
  is_kubernetes_pod, get_image_name, get_kubernetes_labels, get_kubernetes_annotations,
}
use rktlet.Runtime.Filter.{pass_filter}
use rktlet.Runtime.Status.{to_container_status, to_container_state}
use rktlet.Runtime.Types.{RktPod}
use text.Mathlib.TextLemmas.{cons≢nil}
use rktlet.Runtime.Containers.Laws.{IsCreated, IsContainer, create_container-ok}
use rktlet.Examples.World.{
  small_host, small_cli, small_docker, small_caps, small_decode, sane, web_request, web_config,
  web_mount, web_args, both_config, both_context, web_container,
}

colonless : Lacks b':' "pod-1"
unfolding cut
colonless = cut-eq-none b':' "pod-1" refl

-- The container is created in four steps of the host.
web_created :
    create_container small_host small_cli sane small_docker small_caps web_request 0
    ≡ (ok "pod-1:0-web", 4)
unfolding create_container get_canonical_image_name apply_default_image_tag is_hash trim_prefix
    has_prefix strip_prefix generate_app_add_command build_app_name decimal linux_args mount_args
    maybe_create_host_path_volume mnt_volume log_path_of exec_args build_container_id
web_created = refl

create_container-ok_example :
    (app_name : String) × IsCreated small_host small_cli sane small_docker small_caps web_request
      "pod-1:0-web" app_name 0 4
    × IsContainer small_host small_cli sane "pod-1:0-web" "pod-1" app_name
create_container-ok_example =
    create_container-ok small_host small_cli sane small_docker small_caps web_request "pod-1:0-web"
      0 4 (λ app_name built. refl) colonless web_created

web_image : get_canonical_image_name small_docker "busybox:latest" ≡ ok "docker://busybox:latest"
unfolding get_canonical_image_name apply_default_image_tag is_hash trim_prefix has_prefix
    strip_prefix
web_image = refl

web_name : build_app_name sane 0 "web" ≡ ok "0-web"
unfolding build_app_name decimal
web_name = refl

no_linux : linux_args small_caps web_config none ≡ ok []
unfolding linux_args
no_linux = refl

paths_usable : AreUsable small_host web_config.mounts 0
paths_usable = ((1, inr (refl, (2, refl))), tt)

create_container-answered_example :
    (rest : List String) × (t : ℕ) × (generate_app_add_command small_host sane small_caps "pod-1"
        web_config "docker://busybox:latest" 0
      ≡ (ok ("app" ∷ "add" ∷ "pod-1" ∷ "docker://busybox:latest" ∷ rest), t))
    × (name_of rest ≡ some "0-web")
    × (create_container small_host small_cli sane small_docker small_caps web_request 0
        ≡ answered small_host small_cli sane small_docker small_caps
            (build_container_id "pod-1" "0-web")
            (small_cli.run_command "app" ("add" ∷ "pod-1" ∷ "docker://busybox:latest" ∷ rest) t))
create_container-answered_example =
    create_container-answered small_host small_cli sane small_docker small_caps web_request 0 refl
      web_image web_name no_linux paths_usable

web_command :
    generate_app_add_command small_host sane small_caps "pod-1" web_config "sha512-1" 0
    ≡ (ok web_args, 3)
unfolding generate_app_add_command build_app_name decimal linux_args mount_args
    maybe_create_host_path_volume mnt_volume log_path_of exec_args
web_command = refl

generate_app_add_command-ok_example :
    (app_name : String) × (linux volumes rest : List String) × (build_app_name sane 0 "web"
      ≡ ok app_name)
    × (linux_args small_caps web_config none ≡ ok linux)
    × All₂ IsVolumeOf (web_mount ∷ []) volumes
    × (web_args ≡ "app" ∷ "add" ∷ "pod-1" ∷ "sha512-1" ∷ rest)
    × Has ("--name=" <> app_name) rest
    × All (λ v. Has v rest) linux
    × All (λ v. Has v rest) volumes
generate_app_add_command-ok_example =
    generate_app_add_command-ok small_host sane small_caps "pod-1" web_config "sha512-1" 0 3
      web_command

generate_app_add_command-both_example :
    (e : Error) × (generate_app_add_command small_host sane small_caps "pod-1" both_config
        "sha512-1" 0
      ≡ (err e, 0))
generate_app_add_command-both_example =
    generate_app_add_command-both small_caps small_host sane "pod-1" both_config "sha512-1" 0 none
      both_context refl refl (λ e. absurd (cons≢nil e))

web_listed :
    list_containers small_host small_cli sane small_decode none 0 ≡ (ok (web_container ∷ []), 2)
unfolding list_containers list_pods list_apps is_kubernetes_pod lookup has_prefix strip_prefix
    build_container_id container_status parse_container_id split_two cut to_container_status
    parse_app_name parse_uint parse_digits digit to_container_state get_image_name get
    get_kubernetes_labels get_kubernetes_annotations pass_filter
web_listed = refl

list_containers-ok_example :
    (text : String) × (pods : List RktPod) × (u : ℕ) × (small_cli.run_command "list"
        ("--format=json" ∷ [])
        0
      ≡ (ok (text ∷ []), u))
    × (small_decode.pods text ≡ ok pods)
    × (qs : List (Question small_host small_cli sane small_decode none)) × AreAsked small_host
        small_cli sane small_decode none u qs 2
    × (map (app_of small_host small_cli sane small_decode none) qs
        ≡ apps_of small_host small_cli sane small_decode none pods)
    × (web_container ∷ [] ≡ listed small_host small_cli sane small_decode none qs)
list_containers-ok_example =
    list_containers-ok small_host small_cli sane small_decode none 0 2 web_listed
