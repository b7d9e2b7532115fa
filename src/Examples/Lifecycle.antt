-- ===== src/Examples/Lifecycle.antt =====
-- A rkt that is its table of apps, and a container that is created, started and removed on it.
use rktlet.Base.{
  ◌≡◌, refl, sym, ap, ◌∙◌, inl, inr, String, Bool, true, false, ◌||◌, Option, none, some, List, [],
  ◌∷◌, Has, Result, ok, err, ◌==◌, text_eq, if◌then◌else◌, Bool-cases, arith,
}
use rktlet.Base.Chars.{Lacks, strip_prefix, has_prefix, trim_prefix, cut, split_two}
use rktlet.Base.Chars.Laws.{strip_prefix-append, cut-eq-none}
use rktlet.Base.Decimal.{decimal}
use rktlet.Host.{Host, exists}
use rktlet.Cli.{CliOps}
use rktlet.Image.Name.{get_canonical_image_name, apply_default_image_tag, is_hash}
use rktlet.Runtime.AppAdd.{
  generate_app_add_command, linux_args, mount_args, maybe_create_host_path_volume, mnt_volume,
  log_path_of, exec_args,
}
use rktlet.Runtime.AppAdd.Shape.{name_of}
use rktlet.Runtime.AppName.{build_container_id, parse_container_id, build_app_name}
use rktlet.Runtime.Containers.{create_container, start_container, app_command}
use rktlet.Runtime.Lifecycle.{
  App, same_app, without_app, IsRkt, IsStable, ids_of, Event, created, started, was_removed, Step,
  create, start, remove, Runs, stay, go,
}
use rktlet.Runtime.Lifecycle.Refinement.{Runs-IsTable, create_container-fresh}
use rktlet.Runtime.Lifecycle.Table.{IsTable, same_app_iff}
use rktlet.Examples.World.{small_docker, small_caps, sane, web_request}

abbrev table_host : Host
table_host = record {
  State = List App;
  combined_output = λ cmd s. (("", none), s);
  new_uuid = λ s. ("volume-1", s);
  stat = λ path s. (exists, s);
  mkdir_all = λ mode path s. (none, s);
  hostname = λ s. (ok "node-1", s);
  setenv = λ name value s. (none, s);
  look_path = λ name s. (ok name, s);
  temp_file = λ name s. (ok name, s);
  read_all = λ file s. (ok "", s);
  remove = λ file s. s;
  sleep = λ ms s. s;
}

abbrev has_app : App → List App → Bool
has_app app [] = false
has_app app (a ∷ apps) = same_app a app || has_app app apps

abbrev add_app : String → Option String → List App → Result String (List String) × List App
add_app pod none apps = (err "no name", apps)
add_app pod (some name) apps =
    if has_app (pod, name) apps then (err "exists", apps) else (ok [], (pod, name) ∷ apps)

abbrev remove_app : String → Option String → List App → Result String (List String) × List App
remove_app pod none apps = (err "no app", apps)
remove_app pod (some name) apps = (ok [], without_app (pod, name) apps)

abbrev run_app : List String → List App → Result String (List String) × List App
run_app (verb ∷ pod ∷ app ∷ rest) apps =
    if verb == "add"
    then add_app pod (name_of rest) apps
    else if verb == "rm"
    then remove_app pod (strip_prefix "--app=" app) apps
    else (ok [], apps)
run_app _ apps = (err "usage", apps)

abbrev table_cli : CliOps table_host
table_cli = record {
  command = λ sub_cmd args. "rkt" ∷ sub_cmd ∷ args;
  run_command = λ sub_cmd args apps. run_app args apps;
}

has_app-of_Has : (app : App) (apps : List App) → Has app apps → has_app app apps ≡ true
has_app-of_Has app (a ∷ apps) (inl here) = let same = (same_app_iff a app).1 here in ground arith
has_app-of_Has app (a ∷ apps) (inr later) =
    let found = has_app-of_Has app apps later in ground arith
has_app-of_Has app [] has = absurd has

add_app-ok :
    (pod name : String) (o : Option String) (output : List String) (s t : List App)
    → add_app pod o s ≡ (ok output, t)
    → o ≡ some name
    → (t ≡ (pod, name) ∷ s) × (¬ Has (pod, name) s)
add_app-ok pod name none output s t e named = absurd (ground arith)
add_app-ok pod name (some n) output s t e named = elim (Bool-cases (has_app (pod, n) s)) [
  | inl there ↦ let failed = (rw there at e) in absurd (ground arith)
  | inr missing ↦
      let same : n ≡ name = ground arith in
      (
        ap (λ q. q.1) (sym (rw missing at e)) ∙ ap (λ m. (pod, m) ∷ s) same,
        λ has.
            let found = has_app-of_Has (pod, name) s has in
            let lost = ap (λ m. has_app (pod, m) s) (sym same) ∙ missing in absurd (ground arith),
      )
]

table_rkt : IsRkt table_host table_cli
table_rkt = record {
  apps = λ s. s;
  adds = λ pod image name rest output s t e named.
      add_app-ok pod name (name_of rest) output s t e named;
  removes = λ pod name output s t e.
      ap (λ q. q.1) (sym e) ∙ ap (λ o. (remove_app pod o s).1) (strip_prefix-append "--app=" name);
  starts = λ pod name output s t e. ap (λ q. q.1) (sym e);
  stops = λ pod name output s t e. ap (λ q. q.1) (sym e);
  stat_keeps = λ path s. refl;
  mkdir_all_keeps = λ mode path s. refl;
  new_uuid_keeps = λ s. refl;
}

clean_pod : Lacks b':' "pod-1"
unfolding cut
clean_pod = cut-eq-none b':' "pod-1" refl

abbrev web_table : List App
web_table = ("pod-1", "0-web") ∷ []

stable : IsStable sane
stable attempt name app_name built = refl

web_created :
    create_container table_host table_cli sane small_docker small_caps web_request []
    ≡ (ok "pod-1:0-web", web_table)
unfolding create_container get_canonical_image_name apply_default_image_tag is_hash trim_prefix
    has_prefix strip_prefix generate_app_add_command build_app_name decimal linux_args mount_args
    maybe_create_host_path_volume mnt_volume log_path_of exec_args build_container_id name_of
web_created = refl

web_started : start_container table_host table_cli sane "pod-1:0-web" web_table ≡ (ok tt, web_table)
unfolding start_container app_command parse_container_id split_two cut
web_started = refl

create_web :
    Step table_host table_cli sane small_docker small_caps [] web_table
      (created web_request "pod-1:0-web")
create_web = create web_request "pod-1:0-web" web_created

abbrev web_events : List Event
web_events =
    created web_request "pod-1:0-web" ∷ started "pod-1:0-web" ∷ was_removed "pod-1:0-web" ∷ []

web_up :
    Runs table_host table_cli sane small_docker small_caps []
      (created web_request "pod-1:0-web" ∷ started "pod-1:0-web" ∷ [])
      web_table
web_up = go create_web (go (start "pod-1:0-web" web_started) stay)

no_apps : IsTable sane (table_rkt.apps [])
unfolding table_rkt
no_apps = (tt, tt)

Runs-IsTable_example : IsTable sane (table_rkt.apps web_table)
Runs-IsTable_example =
    Runs-IsTable table_host table_cli table_rkt sane small_docker small_caps stable web_up
      ((clean_pod, omega arith), (tt, tt)) no_apps

create_container-fresh_example : ¬ Has "pod-1:0-web" (ids_of (table_rkt.apps []))
create_container-fresh_example =
    create_container-fresh table_host table_cli table_rkt sane small_docker small_caps stable
      create_web clean_pod (omega arith) no_apps
