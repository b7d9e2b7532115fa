-- ===== src/Runtime/Pods/Run.antt =====
-- The steps of RunPodSandbox of pod_sandbox.go, where it succeeded.
use rktlet.Base.{
  ◌≡◌, refl, sym, ap, ◌∙◌, ◌≢◌, String, ◌<>◌, List, text_eq, Result, ok, err, ok-injective, arith,
  eq_iff,
}
use rktlet.Errors.{status_unknown, sandbox_timeout}
use rktlet.Host.{Host, wrapped}
use rktlet.Host.Laws.{and_then-eq-ok, wrapped-eq-ok}
use rktlet.Cli.{CliOps}
use rktlet.Cli.Systemd.{InitOps}
use rktlet.Runtime.Containers.{Decoders}
use rktlet.Runtime.Pods.{
  pod_sandbox_status, run_pod_sandbox, run_with_file, with_file, ready_id, started_uuid, poll_uuid,
  rkt_command, start_all, cgroup_parent_of,
}
use rktlet.Runtime.Sandbox.{generate_app_sandbox_command}
use rktlet.Runtime.Sandbox.Types.{PodSandboxConfig}
use rktlet.Runtime.Types.{PodSandboxStatus, SandboxState, sandbox_ready, sandbox_notready}

module _ (h : Host) (cli : CliOps h) (decode : Decoders) (init : InitOps h) where
  ready_id-ok :
      (uuid : String) (status : PodSandboxStatus) {id : String}
      → ready_id uuid status ≡ ok id
      → (status.state ≡ sandbox_ready) × (uuid ≡ id)
  ready_id-ok uuid status e = ready status.state e
    where
      ready :
          (state : SandboxState) {id : String}
          → (elim state [ sandbox_ready ↦ ok uuid | sandbox_notready ↦ err sandbox_timeout ])
            ≡ ok id
          → (state ≡ sandbox_ready) × (uuid ≡ id)
      ready sandbox_ready e = (refl, ok-injective e)
      ready sandbox_notready e = absurd (ground arith)

  started_uuid-ok :
      (uid uuid : String) {id : String} → started_uuid uid uuid ≡ ok id → (uuid ≡ id) × (id ≢ "")
  started_uuid-ok uid uuid e = ground (arith, eq_iff uuid "")

  -- The command was made and started, the ID read, and the status found ready.
  pub run_with_file-steps :
      (stage1_name network_plugin_name : String) (config : PodSandboxConfig) (file : String)
      (u x : h.State) {id : String}
      → run_with_file h cli decode init stage1_name network_plugin_name config file u ≡ (ok id, x)
      → (command cmd : List String) × (u1 v w : h.State) × (unit : String)
        × (status : PodSandboxStatus) × (generate_app_sandbox_command h config file stage1_name
              network_plugin_name u
            ≡ (ok command, u1))
        × (rkt_command h cli decode init command ≡ ok cmd)
        × (start_all h cli decode init (cgroup_parent_of h cli decode init config) cmd u1
            ≡ (ok unit, v))
        × (id ≢ "")
        × (poll_uuid h 100 file v ≡ (ok id, w))
        × (pod_sandbox_status h cli decode id w ≡ (ok status, x))
        × (status.state ≡ sandbox_ready)
  unfolding run_with_file
  run_with_file-steps stage1_name network_plugin_name config file u x e =
      let (command, u1, generated, e1) =
        and_then-eq-ok
          (generate_app_sandbox_command h config file stage1_name network_plugin_name u) _ e in
      let (cmd, u2, made, e2) = and_then-eq-ok (rkt_command h cli decode init command, u1) _ e1 in
      let (unit, v, start, e3) =
        and_then-eq-ok
          (start_all h cli decode init (cgroup_parent_of h cli decode init config) cmd u2) _ e2 in
      let (text, w, polled, e4) = and_then-eq-ok (poll_uuid h 100 file v) _ e3 in
      let (uuid, w1, started, e5) =
        and_then-eq-ok (started_uuid config.metadata.uid text, w) _ e4 in
      let (status, y, read, last) =
        and_then-eq-ok (wrapped status_unknown (pod_sandbox_status h cli decode uuid w1)) _ e5 in
      let (full, some_text) = started_uuid-ok config.metadata.uid text (ap (λ q. q.0) started) in
      let (ready, same) = ready_id-ok uuid status (ap (λ q. q.0) last) in
      let is_id = full ∙ same in
      (
        command,
        cmd,
        u1,
        v,
        w,
        unit,
        status,
        generated,
        ap (λ q. q.0) made,
        (λ i.
              start_all h cli decode init (cgroup_parent_of h cli decode init config) cmd
                (made i).1)
            ∙ start,
        (λ empty. some_text (same ∙ empty)),
        polled ∙ (λ i. (ok (is_id i), w)),
        (λ i. pod_sandbox_status h cli decode (sym same i) (started i).1)
            ∙ wrapped-eq-ok _ _ read
            ∙ (λ i. (ok status, (last i).1)),
        ready,
      )

  -- The file was made first and removed last.
  pub run_pod_sandbox-file :
      (stage1_name network_plugin_name : String) (config : PodSandboxConfig) (s t : h.State)
      {id : String}
      → run_pod_sandbox h cli decode init stage1_name network_plugin_name config s ≡ (ok id, t)
      → (file : String) × (u x : h.State) × (h.temp_file ("rktlet_" <> config.metadata.uid) s
          ≡ (ok file, u))
        × (run_with_file h cli decode init stage1_name network_plugin_name config file u
            ≡ (ok id, x))
        × (t ≡ h.remove file x)
  unfolding run_pod_sandbox
  run_pod_sandbox-file stage1_name network_plugin_name config s t {id} e =
      from (h.temp_file ("rktlet_" <> config.metadata.uid) s) e
    where
      from :
          (p : Result String String × h.State)
          → with_file h cli decode init stage1_name network_plugin_name config p ≡ (ok id, t)
          → (file : String) × (u x : h.State) × (p ≡ (ok file, u))
            × (run_with_file h cli decode init stage1_name network_plugin_name config file u
                ≡ (ok id, x))
            × (t ≡ h.remove file x)
      from (err m, u) e = absurd (ground arith)
      from (ok file, u) e =
          let run = run_with_file h cli decode init stage1_name network_plugin_name config file u in
          (file, u, run.1, refl, (λ i. ((e i).0, run.1)), sym (λ i. (e i).1))
