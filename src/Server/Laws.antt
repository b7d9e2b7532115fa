-- ===== src/Server/Laws.antt =====
-- What a server that was put together runs.
use mathlib.Core.Path.{subst}
use mathlib.Core.List.{append-nil, append_assoc}
use rktlet.Base.{
  ◌≡◌, refl, sym, ap, ◌∙◌, ◌≢◌, ◌⊎◌, inl, inr, String, List, [], ◌∷◌, ◌++◌, ◌==◌, text_eq, Result,
  ok, err, ok-injective, Bool-cases, arith, eq_iff,
}
use rktlet.Errors.{Error, not_installed}
use rktlet.Host.{Host, wrapped}
use rktlet.Host.Laws.{and_then-eq-ok}
use rktlet.Cli.{
  CliOps, RktCli, command, run_command, result_of, new_rkt_cli, start_rkt_cli, rkt_cli_ops, set,
}
use rktlet.Cli.Flags.{CliConfig}
use rktlet.Cli.Flags.Laws.{text_flag, get_flag_form_of_struct_lem}
use rktlet.Cli.Systemd.{systemd_ops}
use rktlet.Image.Name.{DockerRef}
use rktlet.Image.Store.{image_status}
use rktlet.Image.Store.Types.{Decoders}
use rktlet.Runtime.Service.{Streaming, new_runtime}
use rktlet.Runtime.Service.Laws.{new_runtime-cli, new_runtime-store}
use rktlet.Server.{
  Config, cli_config, CombinedRuntimes, find_rkt, start_services, new_rktlet, check_there,
  new_image_store, start_found, with_path,
}

-- The command that is run for a subcommand and its arguments: rkt's path, the subcommand, and then
-- the flags for no debugging, for the data directory if one is set, and for the checks of images
-- that are left out, in front of the arguments.
abbrev pub rkt_command : Config → String → List String → List String
rkt_command config sub_cmd args =
    (config.rkt_path
      ∷ sub_cmd
      ∷ "--debug=false"
      ∷ (text_flag "dir" config.rkt_datadir ++ "--insecure-options=image,ondisk" ∷ []))
    ++ args

command-new_rkt_cli :
    (config : Config) (sub_cmd : String) (args : List String)
    → command (new_rkt_cli config.rkt_path (cli_config config)) sub_cmd args
      ≡ rkt_command config sub_cmd args
unfolding command new_rkt_cli
command-new_rkt_cli config sub_cmd args =
    rw (get_flag_form_of_struct_lem (cli_config config)) (simp (append-nil, append_assoc))

module _ (h : Host) where
  start_rkt_cli-ok :
      (path : String) (cfg : CliConfig) (s t : h.State) {c : RktCli}
      → start_rkt_cli h path cfg s ≡ (ok c, t)
      → new_rkt_cli path cfg ≡ c
  unfolding start_rkt_cli
  start_rkt_cli-ok path cfg s t e =
      let (_, u, _, e1) = and_then-eq-ok (set h "RKT_EXPERIMENT_APP" s) _ e in
      let (_, v, _, last) = and_then-eq-ok (set h "RKT_EXPERIMENT_ATTACH" u) _ e1 in
      ok-injective (ap (λ q. q.0) last)

  -- The path of rkt that is used: the one that is configured, or else the one that was looked up.
  abbrev pub IsPath : Config → h.State → String → Type 0
  IsPath config s path =
      ((config.rkt_path ≢ "") × (config.rkt_path ≡ path))
      ⊎ ((config.rkt_path ≡ "") × ((h.look_path "rkt" s).0 ≡ ok path))

  find_rkt-IsPath :
      (config : Config) (s t : h.State) {found : Config}
      → find_rkt h config s ≡ (ok found, t)
      → IsPath config s found.rkt_path × (record config { rkt_path = found.rkt_path } ≡ found)
  unfolding find_rkt
  find_rkt-IsPath config s t {found} e = elim (Bool-cases (config.rkt_path == "")) [
    | inr set_already ↦
        let same : config ≡ found = ok-injective (ap (λ q. q.0) (rw set_already at e)) in
        (
          inl (
            (λ empty. ground (arith, (eq_iff config.rkt_path "").1 empty)),
            ap (λ c. c.rkt_path) same,
          ),
          (λ i. record (same i) { rkt_path = found.rkt_path }),
        )
    | inl empty ↦
        let (path, looked_up, same) = looked (h.look_path "rkt" s) (rw empty at e) in
        (
          inr ((eq_iff config.rkt_path "").0 empty, looked_up ∙ ap (λ c. ok c.rkt_path) same),
          (λ i. record config { rkt_path = (sym same i).rkt_path }) ∙ same,
        )
  ]
    where
      looked :
          (p : Result String String × h.State)
          → with_path h config (wrapped (not_installed "rkt") p) ≡ (ok found, t)
          → (path : String) × (p.0 ≡ ok path) × (record config { rkt_path = path } ≡ found)
      looked (ok path, u) e = (path, refl, ok-injective (ap (λ q. q.0) e))
      looked (err x, u) e = absurd (ground arith)

  -- What RunCommand does, with the path of rkt and the flags: it runs one program, and gives what
  -- result_of makes of the output.
  abbrev pub IsRunBy : Config → CliOps h → Type 0
  IsRunBy config cli =
      (sub_cmd : String) (args : List String) (s : h.State)
      → (cli.command sub_cmd args ≡ rkt_command config sub_cmd args)
        × (cli.run_command sub_cmd args s ≡ (
          result_of sub_cmd args (h.combined_output (rkt_command config sub_cmd args) s).0.0
              (h.combined_output (rkt_command config sub_cmd args) s).0.1,
          (h.combined_output (rkt_command config sub_cmd args) s).1,
        ))

  new_rkt_cli-IsRunBy :
      (config : Config)
      → IsRunBy config (rkt_cli_ops h (new_rkt_cli config.rkt_path (cli_config config)))
  unfolding run_command
  new_rkt_cli-IsRunBy config sub_cmd args s = (
    command-new_rkt_cli config sub_cmd args,
    λ i.
        let p = h.combined_output (command-new_rkt_cli config sub_cmd args i) s in
        (result_of sub_cmd args p.0.0 p.0.1, p.1),
  )

  module _ (streaming : Streaming h) (docker : DockerRef) (decode : Decoders) where
    -- The services, of which both run rkt by the one command line, and the runtime asks the image
    -- service that is served.
    abbrev Runs : CliOps h → CombinedRuntimes h streaming → Type 0
    Runs cli services =
        (services.runtime.cli ≡ cli)
        × (services.images ≡ new_image_store h streaming docker decode cli)
        × (services.runtime.image_store ≡ services.images)

    start_services-ok :
        (config : Config) (s t : h.State) {services : CombinedRuntimes h streaming}
        → start_services h streaming docker decode config s ≡ (ok services, t)
        → Runs (rkt_cli_ops h (new_rkt_cli config.rkt_path (cli_config config))) services
    unfolding start_services
    start_services-ok config s t {services} e =
        let (_, u, _, e1) =
          and_then-eq-ok (check_there h config.rkt_path (h.stat config.rkt_path s)) _ e in
        let (systemd_run_path, v, _, e2) =
          and_then-eq-ok (wrapped (not_installed "systemd-run") (h.look_path "systemd-run" u)) _
            e1 in
        let (c, w, made, e3) =
          and_then-eq-ok (start_rkt_cli h config.rkt_path (cli_config config) v) _ e2 in
        let images = new_image_store h streaming docker decode (rkt_cli_ops h c) in
        let (runtime, x, started, last) =
          and_then-eq-ok
            (new_runtime h streaming (rkt_cli_ops h c) (systemd_ops h systemd_run_path) images
              config.stream_server_address config.rkt_stage1_name config.network_plugin_name w)
            _ e3 in
        let cli = new_runtime-cli h (rkt_cli_ops h c) images streaming _ _ _ _ _ w x started in
        let store = new_runtime-store h (rkt_cli_ops h c) images streaming _ _ _ _ _ w x started in
        subst (λ d. Runs (rkt_cli_ops h d) services)
          (sym (start_rkt_cli-ok config.rkt_path (cli_config config) v w made))
          (subst (λ q. Runs (rkt_cli_ops h c) q) (ok-injective (ap (λ q. q.0) last))
            (cli, refl, store))

    -- The services are put together only with a path for rkt: the configured one, or the one that
    -- was looked up if none is configured, which the configuration then holds. Both services run
    -- rkt by one `cli`, the runtime asks the image service that is served, and each command that
    -- the `cli` runs is one program: that path, the subcommand, the flags for no debugging, for the
    -- data directory if one is set, and for the checks of images that are left out, and then the
    -- arguments.
    pub new_rktlet-ok :
        (config : Config) (s : h.State) {services : CombinedRuntimes h streaming}
        → (new_rktlet h streaming docker decode config s).0.0 ≡ ok services
        → (path : String) × (cli : CliOps h) × IsPath config s path
          × ((new_rktlet h streaming docker decode config s).0.1
              ≡ record config { rkt_path = path })
          × IsRunBy (record config { rkt_path = path }) cli
          × (services.runtime.cli ≡ cli)
          × (services.images ≡ record { image_status = image_status docker h cli decode })
          × (services.runtime.image_store ≡ services.images)
    unfolding new_rktlet
    new_rktlet-ok config s {services} e = from (find_rkt h config s) refl e
      where
        from :
            (p : Result Error Config × h.State)
            → find_rkt h config s ≡ p
            → (start_found h streaming docker decode config p).0.0 ≡ ok services
            → (path : String) × (cli : CliOps h) × IsPath config s path
              × ((start_found h streaming docker decode config p).0.1
                  ≡ record config { rkt_path = path })
              × IsRunBy (record config { rkt_path = path }) cli
              × (services.runtime.cli ≡ cli)
              × (services.images ≡ record { image_status = image_status docker h cli decode })
              × (services.runtime.image_store ≡ services.images)
        from (err x, u) found e = absurd (ground arith)
        from (ok c, u) found e =
            let (path, same) = find_rkt-IsPath config s u found in
            let run = start_services h streaming docker decode c u in
            let (cli, images, store) = start_services-ok c u run.1 (λ i. (e i, run.1)) in
            (
              c.rkt_path,
              _,
              path,
              sym same,
              subst (λ d. IsRunBy d (rkt_cli_ops h (new_rkt_cli c.rkt_path (cli_config c))))
                  (sym same) (new_rkt_cli-IsRunBy c),
              cli,
              images,
              store,
            )
