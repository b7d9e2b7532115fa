-- ===== src/Runtime/Pods/Keeps.antt =====
-- Which calls of pod_sandbox.go leave the pods of a rkt there.
use rktlet.Base.{
  ◌≢◌, inl, inr, zero, suc, ℕ, String, ◌<>◌, Option, none, some, List, [], ◌∷◌, ◌==◌, text_eq, Has,
  Result, ok, err, Bool-cases,
}
use rktlet.Errors.{Error, status_unknown}
use rktlet.Host.{Host, Act, and_then, wrapped}
use rktlet.Cli.{CliOps}
use rktlet.Cli.Systemd.{InitOps}
use rktlet.Runtime.Containers.{Decoders}
use rktlet.Runtime.Pods.{
  run_pod_sandbox, run_with_file, with_file, rkt_command, start_all, cgroup_parent_of, poll_uuid,
  on_read, started_uuid, ready_id, pod_sandbox_status,
}
use rktlet.Runtime.Pods.Rkt.{IsSamePod, Stay, IsPodRkt, Stay-refl, Stay-trans}
use rktlet.Runtime.Pods.Started.{pod_sandbox_status-Stay}
use rktlet.Runtime.Sandbox.{
  generate_app_sandbox_command, log_directory, log_directory_of, made, network_args, hostname_args,
  has_host_network,
}
use rktlet.Runtime.Sandbox.Types.{PodSandboxConfig}
use rktlet.Runtime.Types.{RktPod}

-- The pods but one are still there.
abbrev pub StayBut : String → List RktPod → List RktPod → Type 0
StayBut id old new =
    (p : RktPod) → Has p old → p.uuid ≢ id → (q : RktPod) × Has q new × IsSamePod p q

-- What the code relies on besides: pods do not vanish while files are made, names are asked for and
-- texts are read, nor when a process is started or a pod is stopped; and `rkt rm` removes no pod but
-- the one that it names.
pub record KeepsPods (h : Host) (cli : CliOps h) (decode : Decoders) (init : InitOps h)
    (rkt : IsPodRkt h cli decode init) : Type 0 where
  pub temp_file :
      (name : String) (s : h.State) → Stay (rkt.pods s) (rkt.pods (h.temp_file name s).1)
  pub mkdir_all :
      (mode : ℕ) (path : String) (s : h.State)
      → Stay (rkt.pods s) (rkt.pods (h.mkdir_all mode path s).1)
  pub hostname : (s : h.State) → Stay (rkt.pods s) (rkt.pods (h.hostname s).1)
  pub start_process :
      (cgroup_parent program : String) (args : List String) (s : h.State)
      → Stay (rkt.pods s) (rkt.pods (init.start_process cgroup_parent program args s).1)
  pub read_all : (file : String) (s : h.State) → Stay (rkt.pods s) (rkt.pods (h.read_all file s).1)
  pub sleep : (ms : ℕ) (s : h.State) → Stay (rkt.pods s) (rkt.pods (h.sleep ms s))
  pub stop :
      (args : List String) (s : h.State)
      → Stay (rkt.pods s) (rkt.pods (cli.run_command "stop" args s).1)
  pub rm :
      (id : String) (s : h.State)
      → StayBut id (rkt.pods s) (rkt.pods (cli.run_command "rm" (id ∷ []) s).1)

module _ (h : Host) (cli : CliOps h) (decode : Decoders) (init : InitOps h)
    (rkt : IsPodRkt h cli decode init) (keeps : KeepsPods h cli decode init rkt) where
  -- From one state to another the pods stay.
  abbrev pub Kept : h.State → h.State → Type 0
  Kept s t = Stay (rkt.pods s) (rkt.pods t)

  pub and_then-Kept :
      {A B : Type 0} (s : h.State) (p : Result Error A × h.State) (f : A → Act h.State B)
      → Kept s p.1
      → ((a : A) (u : h.State) → Kept u (f a u).1)
      → Kept s (and_then p f).1
  and_then-Kept s (ok a, t) f first later = Stay-trans _ _ _ first (later a t)
  and_then-Kept s (err e, t) f first later = first

  log_directory-Kept :
      (config : PodSandboxConfig) (s : h.State) → Kept s (log_directory h config s).1
  unfolding log_directory
  log_directory-Kept config s = elim (Bool-cases (config.log_directory == "")) [
    | inl empty ↦ rw empty (made-Kept _ (keeps.mkdir_all 0o770 _ s))
    | inr given ↦ rw given (Stay-refl (rkt.pods s))
  ]
    where
      made-Kept :
          (p : Option String × h.State)
          → Kept s p.1
          → Kept s (made h (log_directory_of config.metadata.uid) p).1
      made-Kept (none, t) k = k
      made-Kept (some e, t) k = k

  hostname_args-Kept :
      (s : h.State) (p : Result String String × h.State) → Kept s p.1 → Kept s (hostname_args h p).1
  hostname_args-Kept s (ok hn, t) k = k
  hostname_args-Kept s (err e, t) k = k

  network_args-Kept :
      (config : PodSandboxConfig) (network_plugin_name : String) (s : h.State)
      → Kept s (network_args h config network_plugin_name s).1
  unfolding network_args
  network_args-Kept config network_plugin_name s = elim (Bool-cases (has_host_network config)) [
    | inl host ↦ rw host (
        and_then-Kept s (hostname_args h (h.hostname s)) _
          (hostname_args-Kept s _ (keeps.hostname s)) (λ hn u. Stay-refl (rkt.pods u)))
    | inr own ↦ rw own (Stay-refl (rkt.pods s))
  ]

  generate-Kept :
      (config : PodSandboxConfig) (file stage1_name network_plugin_name : String) (s : h.State)
      → Kept s (generate_app_sandbox_command h config file stage1_name network_plugin_name s).1
  unfolding generate_app_sandbox_command
  generate-Kept config file stage1_name network_plugin_name s =
      and_then-Kept s (log_directory h config s) _ (log_directory-Kept config s) (λ directory u.
        and_then-Kept u (network_args h config network_plugin_name u) _
          (network_args-Kept config network_plugin_name u) (λ network v. Stay-refl (rkt.pods v)))

  start_all-Kept :
      (cgroup_parent : String) (cmd : List String) (s : h.State)
      → Kept s (start_all h cli decode init cgroup_parent cmd s).1
  start_all-Kept cgroup_parent [] s = Stay-refl (rkt.pods s)
  start_all-Kept cgroup_parent (program ∷ args) s = keeps.start_process cgroup_parent program args s

  on_read-Kept :
      (s : h.State) (p : Result String String × h.State)
      (again : h.State → Result Error String × h.State)
      → Kept s p.1
      → ((t : h.State) → Kept t (again t).1)
      → Kept s (on_read h p again).1
  on_read-Kept s (err e, t) again k later = k
  on_read-Kept s (ok text, t) again k later = elim (Bool-cases (text == "")) [
    | inl empty ↦ rw empty (
        Stay-trans _ _ _ k (
          Stay-trans _ _ (rkt.pods (again (h.sleep 100 t)).1) (keeps.sleep 100 t)
            (later (h.sleep 100 t))))
    | inr full ↦ rw full k
  ]

  poll_uuid-Kept : (rounds : ℕ) (file : String) (s : h.State) → Kept s (poll_uuid h rounds file s).1
  unfolding poll_uuid
  poll_uuid-Kept zero file s = Stay-refl (rkt.pods s)
  poll_uuid-Kept (suc rounds) file s =
      on_read-Kept s (h.read_all file s) _ (keeps.read_all file s) (poll_uuid-Kept rounds file)

  wrapped-Kept :
      {E A : Type 0} (s : h.State) (f : E → Error) (p : Result E A × h.State)
      → Kept s p.1
      → Kept s (wrapped f p).1
  wrapped-Kept s f (ok a, t) k = k
  wrapped-Kept s f (err e, t) k = k

  run_with_file-Kept :
      (stage1_name network_plugin_name : String) (config : PodSandboxConfig) (file : String)
      (s : h.State)
      → Kept s (run_with_file h cli decode init stage1_name network_plugin_name config file s).1
  unfolding run_with_file
  run_with_file-Kept stage1_name network_plugin_name config file s =
      and_then-Kept s (generate_app_sandbox_command h config file stage1_name network_plugin_name s)
        _ (generate-Kept config file stage1_name network_plugin_name s)
        (λ command u.
          and_then-Kept u (rkt_command h cli decode init command, u) _ (Stay-refl (rkt.pods u))
            (λ cmd v.
              and_then-Kept v
                (start_all h cli decode init (cgroup_parent_of h cli decode init config) cmd v) _
                (start_all-Kept _ cmd v)
                (λ unit w.
                  and_then-Kept w (poll_uuid h 100 file w) _ (poll_uuid-Kept 100 file w)
                    (λ text x. started-Kept text x))))
    where
      started-Kept :
          (text : String) (x : h.State)
          → Kept x
              (and_then
                (started_uuid config.metadata.uid text, x)
                (λ uuid y.
                  and_then
                    (wrapped status_unknown (pod_sandbox_status h cli decode uuid y))
                    (λ status z. (ready_id uuid status, z)))).1
      started-Kept text x =
          and_then-Kept x (started_uuid config.metadata.uid text, x) _ (Stay-refl (rkt.pods x))
            (λ uuid y.
              and_then-Kept y (wrapped status_unknown (pod_sandbox_status h cli decode uuid y)) _
                (wrapped-Kept y status_unknown _
                  (pod_sandbox_status-Stay h cli decode init rkt uuid y))
                (λ status z. Stay-refl (rkt.pods z)))

  -- RunPodSandbox leaves the pods there, whatever comes of it.
  pub run_pod_sandbox-Kept :
      (stage1_name network_plugin_name : String) (config : PodSandboxConfig) (s : h.State)
      → Kept s (run_pod_sandbox h cli decode init stage1_name network_plugin_name config s).1
  unfolding run_pod_sandbox
  run_pod_sandbox-Kept stage1_name network_plugin_name config s =
      with_file-Kept (h.temp_file ("rktlet_" <> config.metadata.uid) s)
        (keeps.temp_file ("rktlet_" <> config.metadata.uid) s)
    where
      with_file-Kept :
          (p : Result String String × h.State)
          → Kept s p.1
          → Kept s (with_file h cli decode init stage1_name network_plugin_name config p).1
      with_file-Kept (err e, t) k = k
      with_file-Kept (ok file, t) k =
          let run = run_with_file h cli decode init stage1_name network_plugin_name config file t in
          Stay-trans _ _ (rkt.pods (h.remove file run.1)) k (
            Stay-trans _ _ (rkt.pods (h.remove file run.1))
              (run_with_file-Kept stage1_name network_plugin_name config file t)
              (rkt.remove_keeps file run.1))
