-- ===== src/Runtime/Pods/Started.antt =====
-- The pod that RunPodSandbox of pod_sandbox.go leaves with rkt.
use mathlib.Core.Path.{subst}
use rktlet.Base.{
  ◌≡◌, ◌≤◌, refl, sym, ap, ◌∙◌, inl, inr, zero, suc, ℕ, String, ◌<>◌, List, [], ◌∷◌, Has, Result,
  ok, err, ok-injective, arith, map_err,
}
use rktlet.Host.{Host}
use rktlet.Errors.{external, not_unmarshalled}
use rktlet.Host.Keeps.{and_then-keeps, wrapped-keeps}
use rktlet.Host.Laws.{and_then-eq-ok}
use rktlet.Cli.{CliOps}
use rktlet.Cli.Systemd.{InitOps}
use rktlet.Runtime.Containers.{Decoders, one_text}
use rktlet.Runtime.Pods.{
  run_pod_sandbox, rkt_command, start_all, status_retried, pod_sandbox_status,
}
use rktlet.Runtime.Pods.Poll.{EmptyReads, poll_uuid_iff}
use rktlet.Runtime.Pods.Run.{run_pod_sandbox-file, run_with_file-steps}
use rktlet.Runtime.Sandbox.{generate_app_sandbox_command, log_directory, network_args}
use rktlet.Runtime.Sandbox.RoundTrip.{IsReportOf}
use rktlet.Runtime.AppName.{max_uint32}
use rktlet.Runtime.UserArgs.Laws.{IsMap}
use rktlet.Runtime.Sandbox.Types.{PodSandboxConfig}
use rktlet.Runtime.Types.{RktPod}
use rktlet.Runtime.Pods.Rkt.{IsSamePod, Stay, IsPodRkt, IsReportOf-same, Stay-trans}

-- The metadata fit, and the keys can be told from their values.
abbrev pub IsValid : PodSandboxConfig → Type 0
IsValid config =
    (config.metadata.attempt ≤ max_uint32) × IsMap config.annotations × IsMap config.labels

module _ (h : Host) (cli : CliOps h) (decode : Decoders) (init : InitOps h)
    (rkt : IsPodRkt h cli decode init) where
  EmptyReads-IsWriter :
      (file : String) (cmd : List String) (k : ℕ) (s u : h.State)
      → EmptyReads h file k s u
      → rkt.IsWriter file cmd s
      → rkt.IsWriter file cmd u
  EmptyReads-IsWriter file cmd zero s u same writer = subst (rkt.IsWriter file cmd) same writer
  EmptyReads-IsWriter file cmd (suc k) s u (v, empty, later) writer =
      EmptyReads-IsWriter file cmd k _ u later (
        rkt.sleep_keeps 100 file cmd v
          (subst (λ q. rkt.IsWriter file cmd q.1) empty (rkt.read_keeps file cmd s writer)))

  retried-Stay :
      (id : String) (s : h.State) (p : Result String (List String) × h.State)
      → Stay (rkt.pods s) (rkt.pods p.1)
      → Stay (rkt.pods s) (rkt.pods (status_retried h cli decode id p).1)
  retried-Stay id s (ok resp, t) stay = stay
  retried-Stay id s (err e, t) stay =
      let again = cli.run_command "status" (id ∷ "--format=json" ∷ []) t in
      subst (λ l. Stay (rkt.pods s) l) (sym (wrapped-keeps rkt.pods external again))
        (Stay-trans _ _ (rkt.pods again.1) stay (rkt.status_keeps (id ∷ "--format=json" ∷ []) t))

  -- Asking for a status leaves the pods there.
  pub pod_sandbox_status-Stay :
      (id : String) (s : h.State)
      → Stay (rkt.pods s) (rkt.pods (pod_sandbox_status h cli decode id s).1)
  unfolding pod_sandbox_status
  pod_sandbox_status-Stay id s =
      let asked = cli.run_command "status" (id ∷ "--format=json" ∷ "--wait-ready=10s" ∷ []) s in
      subst (λ l. Stay (rkt.pods s) l)
        (sym (
          and_then-keeps rkt.pods (status_retried h cli decode id asked) _ (λ resp t.
            and_then-keeps rkt.pods (one_text resp, t) _
              (λ text u.
                and_then-keeps rkt.pods (map_err not_unmarshalled (decode.pod text), u) _
                  (λ pod v. refl)))))
        (retried-Stay id s asked
          (rkt.status_keeps (id ∷ "--format=json" ∷ "--wait-ready=10s" ∷ []) s))

  -- The command is one of `rkt app`, with the option of the file.
  generate-uuid_file :
      (config : PodSandboxConfig) (file stage1_name network_plugin_name : String) (s t : h.State)
      {cmd : List String}
      → generate_app_sandbox_command h config file stage1_name network_plugin_name s ≡ (ok cmd, t)
      → (rest : List String) × (cmd ≡ "app" ∷ rest) × Has ("--uuid-file-save=" <> file) rest
  unfolding generate_app_sandbox_command
  generate-uuid_file config file stage1_name network_plugin_name s t e =
      let (directory, u, _, e1) = and_then-eq-ok (log_directory h config s) _ e in
      let (network, v, _, last) =
        and_then-eq-ok (network_args h config network_plugin_name u) _ e1 in
      (_, sym (ok-injective (ap (λ q. q.0) last)), inr (inr (inl refl)))

  start_all-IsWriter :
      (cgroup_parent file unit : String) (rest cmd : List String) (s t : h.State)
      → rkt_command h cli decode init ("app" ∷ rest) ≡ ok cmd
      → start_all h cli decode init cgroup_parent cmd s ≡ (ok unit, t)
      → Has ("--uuid-file-save=" <> file) rest
      → rkt.IsWriter file ("app" ∷ rest) t
  start_all-IsWriter cgroup_parent file unit rest [] s t made start has = absurd (ground arith)
  start_all-IsWriter cgroup_parent file unit rest (program ∷ args) s t made start has =
      rkt.starts cgroup_parent "app" program file unit rest args s t (ok-injective made) start has

  -- A pod that has the annotations and labels of a command that was made for the request.
  abbrev pub IsRun : PodSandboxConfig → RktPod → Type 0
  IsRun config p =
      (file stage1_name network_plugin_name : String) × (command : List String) × (u v : h.State)
      × (generate_app_sandbox_command h config file stage1_name network_plugin_name u
          ≡ (ok command, v))
      × IsReportOf command p

  -- Rkt has a pod of the ID that was run for the request.
  abbrev pub HasRun : String → PodSandboxConfig → h.State → Type 0
  HasRun id config s = (p : RktPod) × Has p (rkt.pods s) × (p.uuid ≡ id) × IsRun config p

  pub HasRun-Stay :
      (id : String) (config : PodSandboxConfig) (s t : h.State)
      → HasRun id config s
      → ((p : RktPod)
          → Has p (rkt.pods s)
          → p.uuid ≡ id
          → (q : RktPod) × Has q (rkt.pods t) × IsSamePod p q)
      → HasRun id config t
  HasRun-Stay id config s t
        (p, has, uuid, (file, stage1_name, plugin, command, u, v, generated, report)) stay =
      let (q, has_q, same) = stay p has uuid in
      (
        q,
        has_q,
        same.uuid ∙ uuid,
        (file, stage1_name, plugin, command, u, v, generated, IsReportOf-same same report),
      )

  -- After a sandbox was run, rkt has a pod of its ID, with the annotations and labels of the command.
  pub run_pod_sandbox-pod :
      (stage1_name network_plugin_name : String) (config : PodSandboxConfig) (s t : h.State)
      {id : String}
      → run_pod_sandbox h cli decode init stage1_name network_plugin_name config s ≡ (ok id, t)
      → HasRun id config t
  run_pod_sandbox-pod stage1_name network_plugin_name config s t {id} e =
      let (file, u, x, _, ran, last) =
        run_pod_sandbox-file h cli decode init stage1_name network_plugin_name config s t e in
      let (
        command, cmd, u1, v, w, unit, status, generated, made, start, some_text, polled, read, _,
      ) =
        run_with_file-steps h cli decode init stage1_name network_plugin_name config file u x ran in
      let (rest, shape, has) =
        generate-uuid_file config file stage1_name network_plugin_name u u1 generated in
      let writer =
        start_all-IsWriter _ file unit rest cmd u1 v
          (subst (λ c. rkt_command h cli decode init c ≡ ok cmd) shape made) start has in
      let (k, u2, _, empties, got) = (poll_uuid_iff h file 100 id v w some_text).0 polled in
      let (p, has_p, uuid, report) =
        rkt.writes file id ("app" ∷ rest) u2 w
          (EmptyReads-IsWriter file ("app" ∷ rest) k v u2 empties writer) got some_text in
      let kept : Stay (rkt.pods w) (rkt.pods x) =
        subst (λ q. Stay (rkt.pods w) (rkt.pods q.1)) read (pod_sandbox_status-Stay id w) in
      let (q, has_q, same) = kept p has_p in
      let (r, has_r, again) = rkt.remove_keeps file x q has_q in
      (
        r,
        subst (λ y. Has r (rkt.pods y)) (sym last) has_r,
        again.uuid ∙ same.uuid ∙ uuid,
        (
          file,
          stage1_name,
          network_plugin_name,
          command,
          u,
          u1,
          generated,
          subst (λ c. IsReportOf c r) (sym shape)
              (IsReportOf-same again (IsReportOf-same same report)),
        ),
      )
