-- ===== src/Examples/Listing.antt =====
-- A rkt that only reports, and the list of its one container.
use rktlet.Base.{
  ◌≡◌, refl, ap, inl, inr, ℕ, String, true, false, none, List, [], ◌∷◌, ◌==◌, text_eq, Has, Result,
  ok, err, if◌then◌else◌, arith,
}
use rktlet.Base.Chars.{has_prefix, cut, split_two, strip_prefix}
use rktlet.Base.Chars.Laws.{cut-eq-none}
use rktlet.Base.Decimal.{parse_uint}
use rktlet.Base.Dict.{lookup}
use rktlet.Cli.{CliOps}
use rktlet.Runtime.Annotations.{is_kubernetes_pod}
use rktlet.Runtime.AppName.{parse_app_name}
use rktlet.Runtime.Containers.{list_containers}
use rktlet.Runtime.Lifecycle.{App, IsRkt}
use rktlet.Runtime.Lifecycle.Listing.{IsReporting, IsListed, list_containers-IsListed}
use rktlet.Runtime.Lifecycle.Table.{IsSound}
use rktlet.Runtime.Types.{Container}
use rktlet.Examples.World.{small_host, small_decode, sane, web_app, web_pod}

abbrev report : List String → ℕ → Result String (List String) × ℕ
report [] s = (err "usage", s)
report (verb ∷ args) s =
    if verb == "add"
    then (err "read only", s)
    else if verb == "rm"
    then (err "read only", s)
    else (ok ("{}" ∷ []), s)

abbrev report_cli : CliOps small_host
report_cli = record {
  command = λ sub_cmd args. "rkt" ∷ sub_cmd ∷ args;
  run_command = λ sub_cmd args s. report args s;
}

abbrev one_app : App
one_app = ("pod-1", "0-web")

report_rkt : IsRkt small_host report_cli
report_rkt = record {
  apps = λ s. one_app ∷ [];
  adds = λ pod image name rest output s t e named. absurd (ground arith);
  removes = λ pod name output s t e. absurd (ground arith);
  starts = λ pod name output s t e. refl;
  stops = λ pod name output s t e. refl;
  stat_keeps = λ path s. refl;
  mkdir_all_keeps = λ mode path s. refl;
  new_uuid_keeps = λ s. refl;
}

web_pod_counts : is_kubernetes_pod web_pod ≡ true
unfolding is_kubernetes_pod lookup
web_pod_counts = refl

held :
    (app : App)
    → Has app (one_app ∷ [])
    → (p : _) × Has p (web_pod ∷ [])
      × (p.uuid ≡ app.0)
      × Has app.1 p.app_names
      × (is_kubernetes_pod p ≡ true)
held app (inl here) =
    (web_pod, inl refl, ap (λ a. a.0) here, inl (ap (λ a. a.1) here), web_pod_counts)
held app (inr later) = absurd later

named_app : (app : App) → Has app (one_app ∷ []) → web_app.name ≡ app.1
named_app app (inl here) = ap (λ a. a.1) here
named_app app (inr later) = absurd later

reporting : IsReporting small_host report_cli report_rkt small_decode
unfolding report_rkt
reporting = record {
  lists = λ s. ("{}", web_pod ∷ [], s, refl, refl, refl, held);
  reports = λ app s has. ("{}", web_app, s, refl, refl, named_app app has);
  status_keeps = λ app s. refl;
}

one_app-IsSound : IsSound sane one_app
unfolding parse_app_name cut split_two parse_uint
one_app-IsSound = record {
  clean = cut-eq-none b':' "pod-1" refl;
  sane = refl;
  parsed = (0, "web", refl);
}

not_own : has_prefix "0-web" "rktletinternal-" ≡ false
unfolding has_prefix strip_prefix
not_own = refl

list_containers-IsListed_example :
    (containers : List Container) × (t : ℕ) × (list_containers small_host report_cli sane
        small_decode none 0
      ≡ (ok containers, t))
    × IsListed small_host report_cli report_rkt small_decode reporting sane one_app containers
unfolding report_rkt
list_containers-IsListed_example =
    list_containers-IsListed small_host report_cli report_rkt small_decode reporting sane one_app 0
      one_app-IsSound (inl refl) not_own
