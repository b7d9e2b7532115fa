-- ===== src/Runtime/Pods/Laws.antt =====
-- What the calls about pod sandboxes do, and which sandboxes are listed.
use rktlet.Base.{
  ◌≡◌, refl, sym, ap, ◌∙◌, ◌≢◌, ◌⊎◌, inl, inr, String, ◌<>◌, Bool, true, text_eq, Option, some,
  List, [], ◌∷◌, All₂, Result, ok, err, ok-injective, Bool-cases, arith, if◌then◌else◌,
}
use rktlet.Errors.{Error, removed}
use rktlet.Host.{Host}
use rktlet.Host.Laws.{and_then-eq-ok}
use rktlet.Cli.{CliOps}
use rktlet.Cli.StopErrors.{rkt_stop_is_already_stopped_error, rkt_stop_is_not_exist_error}
use rktlet.Cli.Systemd.{InitOps}
use rktlet.Runtime.Annotations.{is_kubernetes_pod}
use rktlet.Runtime.Containers.{Decoders}
use rktlet.Runtime.Filter.{pod_sandbox_status_matches_filter}
use rktlet.Runtime.Pods.{
  pod_sandbox_status, stop_pod, remove_pod_sandbox, ignore_stopped, removed_with, run_pod_sandbox,
  poll_uuid, list_sandboxes, add_sandbox, keep_sandbox, to_pod_sandbox, show_bool,
}
use rktlet.Runtime.Pods.Run.{run_pod_sandbox-file, run_with_file-steps}
use rktlet.Runtime.Sandbox.Types.{PodSandboxConfig}
use rktlet.Runtime.Status.{to_pod_sandbox_status}
use rktlet.Runtime.Types.{PodSandbox, PodSandboxFilter, PodSandboxStatus, RktPod, sandbox_ready}

abbrev pub kubernetes_pods : List RktPod → List RktPod
kubernetes_pods [] = []
kubernetes_pods (p ∷ pods) =
    let rest = kubernetes_pods pods in if is_kubernetes_pod p then p ∷ rest else rest

abbrev pub matching : Option PodSandboxFilter → List PodSandboxStatus → List PodSandbox
matching filter [] = []
matching filter (status ∷ statuses) =
    let rest = matching filter statuses in
    if pod_sandbox_status_matches_filter status filter then to_pod_sandbox status ∷ rest else rest

-- The status is what rkt's report of the pod is converted to.
abbrev pub IsStatusOf : RktPod → PodSandboxStatus → Type 0
IsStatusOf p status = to_pod_sandbox_status p ≡ ok status

add_sandbox-ok :
    (filter : Option PodSandboxFilter) (r : Result Error PodSandboxStatus)
    (later : Result Error (List PodSandbox)) {sandboxes : List PodSandbox}
    → add_sandbox filter r later ≡ ok sandboxes
    → (status : PodSandboxStatus) × (rest : List PodSandbox) × (r ≡ ok status)
      × (later ≡ ok rest)
      × (keep_sandbox filter status rest ≡ sandboxes)
add_sandbox-ok filter (err x) later e = absurd (ground arith)
add_sandbox-ok filter (ok status) (err x) e = absurd (ground arith)
add_sandbox-ok filter (ok status) (ok rest) e = (status, rest, refl, refl, ok-injective e)

-- The sandboxes that ListPodSandbox gives are those that match the filter among all of
-- kubernetes' pods, in the order of rkt's list, each as its pod is converted; and if one of these
-- pods cannot be converted, there is no list.
pub list_sandboxes-ok :
    (filter : Option PodSandboxFilter) (pods : List RktPod) {sandboxes : List PodSandbox}
    → list_sandboxes filter pods ≡ ok sandboxes
    → (statuses : List PodSandboxStatus) × All₂ IsStatusOf (kubernetes_pods pods) statuses
      × (sandboxes ≡ matching filter statuses)
unfolding list_sandboxes
list_sandboxes-ok filter [] e = ([], tt, sym (ok-injective e))
list_sandboxes-ok filter (p ∷ pods) e = elim (Bool-cases (is_kubernetes_pod p)) [
  | inr other ↦ rw other (list_sandboxes-ok filter pods (rw other at e))
  | inl kubernetes ↦
      let (status, rest, converted, later, kept) =
        add_sandbox-ok filter (to_pod_sandbox_status p) (list_sandboxes filter pods)
          (rw kubernetes at e) in
      let (statuses, each, all) = list_sandboxes-ok filter pods later in
      rw kubernetes (
        status ∷ statuses,
        (converted, each),
        sym kept ∙ ap (λ l. keep_sandbox filter status l) all,
      )
]

module _ (h : Host) (cli : CliOps h) (decode : Decoders) where
  -- Removing a sandbox is always reported as an error, also where `rkt rm` succeeds; that command
  -- is run last, after the sandbox was stopped by force, whatever came of that.
  pub remove_pod_sandbox-fails :
      (id : String) (s : h.State)
      → (output : List String) × (remove_pod_sandbox h cli decode id s ≡ (
        err (removed output),
        (cli.run_command "rm" (id ∷ []) (stop_pod h cli decode id true s).1).1,
      ))
  unfolding remove_pod_sandbox
  remove_pod_sandbox-fails id s =
      fails (cli.run_command "rm" (id ∷ []) (stop_pod h cli decode id true s).1)
    where
      fails :
          (p : Result String (List String) × h.State)
          → (output : List String) × (removed_with h cli decode p ≡ (err (removed output), p.1))
      fails (ok output, t) = (output, refl)
      fails (err e, t) = ([], refl)

  -- The error says that the pod is stopped or gone.
  abbrev pub IsIgnored : String → Type 0
  IsIgnored e =
      (rkt_stop_is_already_stopped_error (some e) ≡ true)
      ⊎ (rkt_stop_is_not_exist_error (some e) ≡ true)

  -- The program's outcome is one that `rkt stop` is forgiven.
  abbrev pub IsStopped : Result String (List String) → Type 0
  IsStopped (ok output) = Unit
  IsStopped (err e) = IsIgnored e

  ignore_stopped-ok :
      (p : Result String (List String) × h.State) {t : h.State}
      → ignore_stopped h cli decode p ≡ (ok tt, t)
      → IsStopped p.0 × (p.1 ≡ t)
  ignore_stopped-ok (ok output, s) e = (tt, ap (λ q. q.1) e)
  ignore_stopped-ok (err x, s) e = elim (Bool-cases (rkt_stop_is_already_stopped_error (some x))) [
    | inl stopped ↦ (inl stopped, ap (λ q. q.1) (rw stopped at e))
    | inr running ↦ elim (Bool-cases (rkt_stop_is_not_exist_error (some x))) [
      | inl gone ↦ (inr gone, ap (λ q. q.1) (rw (running, gone) at e))
      | inr there ↦ let impossible = (rw (running, there) at e) in absurd (ground arith)
    ]
  ]

  -- A sandbox is stopped without error only if `rkt stop` succeeded, or failed with an error that
  -- says that the pod is stopped already or does not exist, and the status of the sandbox could be
  -- read afterwards.
  pub stop_pod-ok :
      (id : String) (force : Bool) (s t : h.State)
      → stop_pod h cli decode id force s ≡ (ok tt, t)
      → (u : h.State) × (status : PodSandboxStatus) × IsStopped
          (cli.run_command "stop" (("--force=" <> show_bool force) ∷ id ∷ []) s).0
        × ((cli.run_command "stop" (("--force=" <> show_bool force) ∷ id ∷ []) s).1 ≡ u)
        × (pod_sandbox_status h cli decode id u ≡ (ok status, t))
  unfolding stop_pod
  stop_pod-ok id force s t e =
      let (_, u, stopped, rest) =
        and_then-eq-ok
          (ignore_stopped h cli decode
            (cli.run_command "stop" (("--force=" <> show_bool force) ∷ id ∷ []) s))
          _ e in
      let (status, v, read, last) = and_then-eq-ok (pod_sandbox_status h cli decode id u) _ rest in
      let (forgiven, same) = ignore_stopped-ok _ stopped in
      (u, status, forgiven, same, read ∙ (λ i. (ok status, (last i).1)))

  module _ (init : InitOps h) where
    -- A sandbox is run without error only if its temporary file was made, from which its ID, which
    -- is not empty, was read within a hundred rounds; the status that was asked for by that ID
    -- said that the sandbox is ready; and the file was removed last.
    pub run_pod_sandbox-ok :
        (stage1_name network_plugin_name : String) (config : PodSandboxConfig) (s t : h.State)
        {id : String}
        → run_pod_sandbox h cli decode init stage1_name network_plugin_name config s ≡ (ok id, t)
        → (file : String) × (status : PodSandboxStatus) × (u v w x : h.State) × (h.temp_file
              ("rktlet_" <> config.metadata.uid)
              s
            ≡ (ok file, u))
          × (id ≢ "")
          × (poll_uuid h 100 file v ≡ (ok id, w))
          × (pod_sandbox_status h cli decode id w ≡ (ok status, x))
          × (status.state ≡ sandbox_ready)
          × (t ≡ h.remove file x)
    run_pod_sandbox-ok stage1_name network_plugin_name config s t e =
        let (file, u, x, made, ran, last) =
          run_pod_sandbox-file h cli decode init stage1_name network_plugin_name config s t e in
        let (command, cmd, u1, v, w, unit, status, _, _, _, some_text, polled, read, ready) =
          run_with_file-steps h cli decode init stage1_name network_plugin_name config file u x
            ran in
        (file, status, u, v, w, x, made, some_text, polled, read, ready, last)
