-- ===== src/Examples/PodTable.antt =====
-- rktlet/runtime/pod_sandbox.go on a rkt that runs one sandbox.
use mathlib.Core.Path.{subst}
use rktlet.Base.{
  All, ◌≡◌, refl, sym, ap, ◌∙◌, inl, inr, ℕ, suc, String, Bool, true, false, ◌&&◌, none, List, [],
  ◌∷◌, ◌==◌, text_eq, if◌then◌else◌, ok, err, ok-injective, arith, Bool-cases, eq_iff,
}
use rktlet.Base.Decimal.{decimal, digits, digit, parse_uint, parse_digits}
use rktlet.Base.Dict.{lookup, get}
use rktlet.Base.Int.{decimal_int}
use rktlet.Cli.Systemd.{InitOps}
use rktlet.Errors.{external, removed}
use rktlet.Runtime.Annotations.{get_kubernetes_metadata}
use rktlet.Runtime.Containers.{Decoders}
use rktlet.Runtime.Pods.{
  remove_pod_sandbox, stop_pod, run_pod_sandbox, run_with_file, pod_sandbox_status, poll_uuid,
  list_pod_sandbox,
}
use rktlet.Runtime.Pods.Rkt.{Stay, AreOurs, IsPodRkt}
use rktlet.Runtime.Pods.Listed.{IsListedAs}
use rktlet.Runtime.Pods.Keeps.{KeepsPods}
use rktlet.Runtime.Pods.Runs.{ran, removing, run, remove, stay, go, replay, Runs-IsListedAs}
use rktlet.Runtime.Sandbox.{
  generate_app_sandbox_command, network_args, port_args, generate_port_args, has_host_network,
  stage1_of, log_directory, reserved_annotations,
}
use rktlet.Runtime.Sandbox.RoundTrip.{IsReportOf}
use rktlet.Runtime.Status.{to_pod_sandbox_status}
use rktlet.Runtime.Types.{PodSandbox, PodSandboxStatus}
use rktlet.Examples.World.{small_host, small_cli, small_decode}
use rktlet.Examples.RoundTrips.{
  noted_sandbox, noted_args, noted_pod, pod_reported, noted_labels-IsMap, noted_annotations-IsMap,
}

abbrev same_texts : List String → List String → Bool
same_texts [] [] = true
same_texts (a ∷ ts) (b ∷ us) = a == b && same_texts ts us
same_texts _ _ = false

same_texts-eq : (ts us : List String) → same_texts ts us ≡ true → ts ≡ us
same_texts-eq [] [] e = refl
same_texts-eq [] (b ∷ us) e = absurd (ground arith)
same_texts-eq (a ∷ ts) [] e = absurd (ground arith)
same_texts-eq (a ∷ ts) (b ∷ us) e =
    let first : a ≡ b = ground (arith, eq_iff a b) in
    let later = same_texts-eq ts us (ground arith) in λ i. first i ∷ later i

-- One sandbox can be started, and no other.
abbrev one_init : InitOps small_host
one_init = record {
  start_process = λ cgroup_parent command args s.
      if same_texts args noted_args
      then (ok "rktlet-1.service", suc s)
      else (err (external "busy"), s);
}

abbrev one_decode : Decoders
one_decode = record small_decode { pod = λ text. ok noted_pod; pods = λ text. ok (noted_pod ∷ []) }

started_only :
    (cgroup_parent program unit : String) (args : List String) (s t : ℕ)
    → one_init.start_process cgroup_parent program args s ≡ (ok unit, t)
    → args ≡ noted_args
started_only cgroup_parent program unit args s t e =
    elim (Bool-cases (same_texts args noted_args)) [
      | inl same ↦ same_texts-eq args noted_args same
      | inr other ↦ let impossible = (rw other at e) in absurd (ground arith)
    ]

stays : Stay (noted_pod ∷ []) (noted_pod ∷ [])
stays p has = (p, has, record { uuid = refl; annotations = refl; labels = refl })

one_rkt : IsPodRkt small_host small_cli one_decode one_init
one_rkt = record {
  pods = λ s. noted_pod ∷ [];
  IsWriter = λ file cmd s. cmd ≡ noted_args;
  starts = λ cgroup_parent sub_cmd program file unit rest args s t made start has.
      tail_of made ∙ started_only cgroup_parent program unit args s t start;
  writes = λ file text cmd s t writer read some_text. (
    noted_pod,
    inl refl,
    ok-injective (ap (λ q. q.0) read),
    subst (λ c. IsReportOf c noted_pod) (sym writer) pod_reported,
  );
  read_keeps = λ file cmd s writer. writer;
  sleep_keeps = λ ms file cmd s writer. writer;
  status_keeps = λ args s. stays;
  remove_keeps = λ file s. stays;
  lists = λ s. ("out", suc s, refl, refl, stays);
}
  where
    tail_of :
        {a b : String} {ts us : List String} → ◌≡◌ {A = List String} (a ∷ ts) (b ∷ us) → ts ≡ us
    tail_of e = ground arith

noted_run :
    run_pod_sandbox small_host small_cli one_decode one_init "" "rkt.kubernetes.io" noted_sandbox 0
    ≡ (ok "pod-1", 5)
unfolding run_pod_sandbox run_with_file poll_uuid generate_app_sandbox_command network_args
    port_args generate_port_args has_host_network stage1_of lookup log_directory
    reserved_annotations decimal digits digit decimal_int pod_sandbox_status to_pod_sandbox_status
    get_kubernetes_metadata get parse_uint parse_digits
noted_run = refl

noted_converted : (status : PodSandboxStatus) × (to_pod_sandbox_status noted_pod ≡ ok status)
unfolding to_pod_sandbox_status get_kubernetes_metadata get lookup parse_uint parse_digits digit
noted_converted = (_, refl)

is_ours : AreOurs (noted_pod ∷ [])
is_ours p (inl here) counts =
    subst (λ q. (status : PodSandboxStatus) × (to_pod_sandbox_status q ≡ ok status)) here
      noted_converted
is_ours p (inr later) counts = absurd later

one_keeps : KeepsPods small_host small_cli one_decode one_init one_rkt
unfolding one_rkt
one_keeps = record {
  temp_file = λ name s. stays;
  mkdir_all = λ mode path s. stays;
  hostname = λ s. stays;
  start_process = λ cgroup_parent program args s. stays;
  read_all = λ file s. stays;
  sleep = λ ms s. stays;
  stop = λ args s. stays;
  rm = λ id s p has other. stays p has;
}

other_removed :
    remove_pod_sandbox small_host small_cli one_decode "pod-2" 5 ≡ (err (removed ("out" ∷ [])), 8)
unfolding remove_pod_sandbox stop_pod pod_sandbox_status to_pod_sandbox_status
    get_kubernetes_metadata get lookup parse_uint parse_digits digit
other_removed = refl

Runs-IsListedAs_example :
    (sandboxes : List PodSandbox) × (u : ℕ) × (list_pod_sandbox small_host small_cli one_decode none
        8
      ≡ (ok sandboxes, u))
    × All
        (λ e. IsListedAs e.0 e.1 sandboxes)
        (replay (ran "pod-1" noted_sandbox ∷ removing "pod-2" ∷ []) [])
Runs-IsListedAs_example =
    Runs-IsListedAs small_host small_cli one_decode one_init one_rkt one_keeps
      (go (run "" "rkt.kubernetes.io" noted_sandbox "pod-1" noted_run)
        (go (remove "pod-2" (err (removed ("out" ∷ []))) other_removed) stay))
      (λ u. unfold one_rkt in is_ours)
      ((omega arith, noted_annotations-IsMap, noted_labels-IsMap), tt)
