-- ===== src/Examples/Names.antt =====
-- rktlet/runtime: names, filters, annotations and the parts of commands.
use rktlet.Base.{◌/◌, ◌*◌, ◌≡◌, ◌≢◌, ◌↔◌, ◌⊎◌, refl, String, true, some, [], ◌∷◌, ok, err, arith}
use rktlet.Base.Chars.{Lacks}
use rktlet.Base.Decimal.{digit, digits, decimal}
use rktlet.Base.Int.{pos}
use rktlet.Errors.{invalid_container_id, seccomp_not_supported}
use rktlet.Runtime.AppAdd.Cpu.{cpu_quota_to_milli_cores, cpu_quota_to_milli_cores_lem}
use rktlet.Runtime.AppName.{build_container_id, parse_container_id, build_app_name, parse_app_name}
use rktlet.Runtime.AppName.RoundTrip.{
  parse_container_id_iff, parse_container_id-invalid_iff, parse_app_name-build_app_name,
}
use rktlet.Runtime.Filter.{pass_filter}
use rktlet.Runtime.Filter.Laws.{Passes, pass_filter_iff}
use rktlet.Runtime.Network.{get_ip, address}
use rktlet.Runtime.Network.Laws.{get_ip_lem, address_or, last_named, first_named}
use rktlet.Runtime.Seccomp.{generate_seccomp_arg, default_seccomp}
use rktlet.Runtime.Seccomp.Laws.{generate_seccomp_arg_lem, profile_in_force}
use rktlet.Runtime.Types.{ContainerFilter, container_running, NetInfo}
use rktlet.Examples.World.{sane, web_container}

parse_container_id_iff_example : (parse_container_id sane "pod-1:0-web" ≡ ok ("pod-1", "0-web")) ↔ (
    (rest : String) × ("pod-1:0-web" ≡ build_container_id "pod-1" rest)
    × Lacks b':' "pod-1"
    × (sane rest ≡ ok "0-web"))
parse_container_id_iff_example = parse_container_id_iff sane "pod-1:0-web" "pod-1" "0-web"

parse_container_id-invalid_iff_example :
    (parse_container_id sane "0-web" ≡ err (invalid_container_id "0-web")) ↔ Lacks b':' "0-web"
parse_container_id-invalid_iff_example = parse_container_id-invalid_iff sane "0-web"

web_name : build_app_name sane 0 "web" ≡ ok "0-web"
unfolding build_app_name decimal digits digit
web_name = refl

parse_app_name-build_app_name_example :
    (s_name : String) × (sane "web" ≡ ok s_name) × (parse_app_name "0-web" ≡ ok (0, s_name))
parse_app_name-build_app_name_example =
    parse_app_name-build_app_name sane 0 "web" (omega arith) web_name

abbrev running_only : ContainerFilter
running_only = record {
  id = "";
  state = some container_running;
  pod_sandbox_id = "pod-1";
  label_selector = [];
}

pass_filter_iff_example :
    (pass_filter web_container (some running_only) ≡ true) ↔ Passes web_container running_only
pass_filter_iff_example = pass_filter_iff web_container running_only

abbrev default_network : NetInfo
default_network = record { net_name = "default"; ip = 172 ∷ 16 ∷ 0 ∷ 2 ∷ [] }

get_ip_lem_example :
    get_ip (default_network ∷ [])
    ≡ address_or
        (address_or (address default_network) (last_named "default" (default_network ∷ [])))
        (first_named "rkt.kubernetes.io" (default_network ∷ []))
get_ip_lem_example = get_ip_lem default_network []

cpu_quota_to_milli_cores_lem_example :
    cpu_quota_to_milli_cores (pos 50000) (pos 100000) ≡ pos (50000 * 1000 / 100000)
cpu_quota_to_milli_cores_lem_example = cpu_quota_to_milli_cores_lem 50000 100000 (omega arith)

generate_seccomp_arg_lem_example :
    ((generate_seccomp_arg "docker/default" [] "web" ≡ ok default_seccomp) ↔ (
      (profile_in_force "docker/default" [] "web" ≡ "")
      ⊎ (profile_in_force "docker/default" [] "web" ≡ "unconfined")))
    × ((generate_seccomp_arg "docker/default" [] "web" ≡ ok "")
        ↔ (profile_in_force "docker/default" [] "web" ≡ "docker/default"))
    × ((profile : String)
        → (generate_seccomp_arg "docker/default" [] "web" ≡ err (seccomp_not_supported profile)) ↔ (
            (profile_in_force "docker/default" [] "web" ≡ profile)
            × (profile ≢ "")
            × (profile ≢ "unconfined")
            × (profile ≢ "docker/default")))
generate_seccomp_arg_lem_example = generate_seccomp_arg_lem "docker/default" [] "web"
