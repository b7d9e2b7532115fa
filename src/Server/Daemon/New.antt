-- ===== src/Server/Daemon/New.antt =====
-- That New leaves the file of the socket as it is.
use rktlet.Base.{
  ◌≡◌, refl, ◌∙◌, inl, inr, String, Option, none, some, List, ◌==◌, text_eq, Result, ok, err,
  Bool-cases,
}
use rktlet.Errors.{Error, image_not_fetched, variable_not_set, not_installed, external}
use rktlet.Host.{Host, Stat, exists, not_exist, stat_failed, Act, and_then, wrapped, failing}
use rktlet.Host.Keeps.{and_then-keeps, wrapped-keeps, failing-keeps}
use rktlet.Cli.{RktCli, rkt_cli_ops, run_command, start_rkt_cli, new_rkt_cli, set}
use rktlet.Cli.Flags.{CliConfig}
use rktlet.Cli.Systemd.{InitOps, systemd_ops}
use rktlet.Image.Name.{DockerRef}
use rktlet.Image.Store.Types.{Decoders}
use rktlet.Runtime.Service.{
  Streaming, RktRuntime, new_runtime, fetch_stage1_image, fetch_unless_there, check_fetched,
  get_image_hash, hash_of,
}
use rktlet.Server.{
  Config, cli_config, CombinedRuntimes, find_rkt, with_path, check_there, start_services,
  start_found, new_image_store, new_rktlet,
}
use rktlet.Server.Daemon.{DaemonOps}
use rktlet.Server.Daemon.Socket.{IsSocket, run_command_keeps, image_status_keeps}

module _ (h : Host) (streaming : Streaming h) (ops : DaemonOps h streaming) (docker : DockerRef)
    (decode : Decoders) (socket : IsSocket h streaming ops docker decode) where
  set_keeps : (name : String) (s : h.State) → socket.there (set h name s).1 ≡ socket.there s
  set_keeps name s =
      wrapped-keeps socket.there variable_not_set (failing (h.setenv name "true" s))
      ∙ failing-keeps socket.there (h.setenv name "true" s)
      ∙ socket.setenv_keeps name "true" s

  start_rkt_cli_keeps :
      (rkt_path : String) (cfg : CliConfig) (s : h.State)
      → socket.there (start_rkt_cli h rkt_path cfg s).1 ≡ socket.there s
  unfolding start_rkt_cli
  start_rkt_cli_keeps rkt_path cfg s =
      and_then-keeps socket.there {B = RktCli} (set h "RKT_EXPERIMENT_APP" s)
        (λ app t.
          and_then (set h "RKT_EXPERIMENT_ATTACH" t)
            (λ attach u. (ok (new_rkt_cli rkt_path cfg), u)))
        (λ app t.
          and_then-keeps socket.there {B = RktCli} (set h "RKT_EXPERIMENT_ATTACH" t)
            (λ attach u. (ok (new_rkt_cli rkt_path cfg), u)) (λ attach u. refl)
          ∙ set_keeps "RKT_EXPERIMENT_ATTACH" t)
      ∙ set_keeps "RKT_EXPERIMENT_APP" s

  hash_of-keeps :
      (name : String) (p : Result Error (Option _) × h.State)
      → socket.there (hash_of name p).1 ≡ socket.there p.1
  hash_of-keeps name (err e, s) = refl
  hash_of-keeps name (ok none, s) = refl
  hash_of-keeps name (ok (some image), s) = refl

  fetch_unless_there-keeps :
      (c : RktCli) (name : String) (p : Result Error String × h.State)
      → socket.there (fetch_unless_there h (rkt_cli_ops h c) name p).1 ≡ socket.there p.1
  fetch_unless_there-keeps c name (ok hash, s) = refl
  fetch_unless_there-keeps c name (err e, s) =
      fetched (run_command h c "image" _ s)
      ∙ run_command_keeps h streaming ops docker decode socket c "image" _ s
    where
      fetched :
          (p : Result String (List String) × h.State)
          → socket.there
              (and_then
                (wrapped (λ e. image_not_fetched name (external e)) p)
                (λ output t. (check_fetched h name output, t))).1
            ≡ socket.there p.1
      fetched (err e, t) = refl
      fetched (ok output, t) = refl

  fetch_stage1_image_keeps :
      (c : RktCli) (name : String) (s : h.State)
      → socket.there
          (fetch_stage1_image h
            (rkt_cli_ops h c)
            (new_image_store h streaming docker decode (rkt_cli_ops h c))
            name
            s).1
        ≡ socket.there s
  unfolding fetch_stage1_image get_image_hash
  fetch_stage1_image_keeps c name s = elim (Bool-cases (name == "")) [
    | inl empty ↦ rw empty refl
    | inr named ↦ rw named (
        fetch_unless_there-keeps c name _
        ∙ hash_of-keeps name _
        ∙ image_status_keeps h streaming ops docker decode socket c name s)
  ]

  -- What New of the runtime makes.
  abbrev runtime_of :
      RktCli → InitOps h → String → String → streaming.Server → RktRuntime h streaming
  runtime_of c init stage1_name plugin server = record {
    cli = rkt_cli_ops h c;
    init = init;
    stream_server = server;
    image_store = new_image_store h streaming docker decode (rkt_cli_ops h c);
    stage1_name = stage1_name;
    network_plugin_name = plugin;
  }

  abbrev fetch_of : RktCli → String → Act h.State (Unit {0})
  fetch_of c stage1_name =
      fetch_stage1_image h (rkt_cli_ops h c)
        (new_image_store h streaming docker decode (rkt_cli_ops h c)) stage1_name

  new_runtime_keeps :
      (c : RktCli) (init : InitOps h) (addr stage1_name plugin : String) (s : h.State)
      → socket.there
          (new_runtime h streaming
            (rkt_cli_ops h c)
            init
            (new_image_store h streaming docker decode (rkt_cli_ops h c))
            addr
            stage1_name
            plugin
            s).1
        ≡ socket.there s
  unfolding new_runtime
  new_runtime_keeps c init addr stage1_name plugin s =
      after (streaming.new_server addr s) ∙ socket.new_server_keeps addr s
    where
      after :
          (p : Result String streaming.Server × h.State)
          → socket.there
              (and_then (wrapped external p) (λ server t.
                and_then
                  (fetch_of c stage1_name t)
                  (λ fetched u. (ok (runtime_of c init stage1_name plugin server), u)))).1
            ≡ socket.there p.1
      after (err e, t) = refl
      after (ok server, t) =
          and_then-keeps socket.there (fetch_of c stage1_name t)
            (λ fetched u. (ok (runtime_of c init stage1_name plugin server), u)) (λ fetched u. refl)
          ∙ fetch_stage1_image_keeps c stage1_name t

  check_there-keeps :
      (path : String) (p : Stat × h.State)
      → socket.there (check_there h path p).1 ≡ socket.there p.1
  check_there-keeps path (exists, s) = refl
  check_there-keeps path (not_exist, s) = refl
  check_there-keeps path (stat_failed e, s) = refl

  find_rkt_keeps :
      (config : Config) (s : h.State) → socket.there (find_rkt h config s).1 ≡ socket.there s
  unfolding find_rkt
  find_rkt_keeps config s = elim (Bool-cases (config.rkt_path == "")) [
    | inr given ↦ rw given refl
    | inl empty ↦ rw empty (looked_up (h.look_path "rkt" s) ∙ socket.look_path_keeps "rkt" s)
  ]
    where
      looked_up :
          (p : Result String String × h.State)
          → socket.there (with_path h config (wrapped (not_installed "rkt") p)).1 ≡ socket.there p.1
      looked_up (ok path, t) = refl
      looked_up (err e, t) = refl

  -- The rest of New, from the path of systemd-run on.
  abbrev made : Config → RktCli → String → Act h.State (CombinedRuntimes h streaming)
  made config c systemd_run_path t =
      and_then
        (new_runtime h streaming (rkt_cli_ops h c) (systemd_ops h systemd_run_path)
          (new_image_store h streaming docker decode (rkt_cli_ops h c)) config.stream_server_address
          config.rkt_stage1_name config.network_plugin_name t)
        (λ runtime u. (
          ok (record {
            runtime = runtime;
            images = new_image_store h streaming docker decode (rkt_cli_ops h c);
          }),
          u,
        ))

  made_keeps :
      (config : Config) (c : RktCli) (path : String) (s : h.State)
      → socket.there (made config c path s).1 ≡ socket.there s
  made_keeps config c path s =
      and_then-keeps socket.there {B = CombinedRuntimes h streaming}
        (new_runtime h streaming (rkt_cli_ops h c) (systemd_ops h path)
          (new_image_store h streaming docker decode (rkt_cli_ops h c)) config.stream_server_address
          config.rkt_stage1_name config.network_plugin_name s)
        _ (λ runtime u. refl)
      ∙ new_runtime_keeps c _ _ _ _ s

  start_services_keeps :
      (config : Config) (s : h.State)
      → socket.there (start_services h streaming docker decode config s).1 ≡ socket.there s
  unfolding start_services
  start_services_keeps config s =
      there (check_there h config.rkt_path (h.stat config.rkt_path s))
      ∙ check_there-keeps config.rkt_path (h.stat config.rkt_path s)
      ∙ socket.stat_keeps config.rkt_path s
    where
      set_up :
          (path : String) (p : Result Error RktCli × h.State)
          → socket.there (and_then p (λ c t. made config c path t)).1 ≡ socket.there p.1
      set_up path (err e, t) = refl
      set_up path (ok c, t) = made_keeps config c path t

      found :
          (p : Result String String × h.State)
          → socket.there
              (and_then (wrapped (not_installed "systemd-run") p) (λ path t.
                and_then
                  (start_rkt_cli h config.rkt_path (cli_config config) t)
                  (λ c u. made config c path u))).1
            ≡ socket.there p.1
      found (err e, t) = refl
      found (ok path, t) =
          set_up path (start_rkt_cli h config.rkt_path (cli_config config) t)
          ∙ start_rkt_cli_keeps config.rkt_path (cli_config config) t

      there :
          (p : Result Error (Unit {0}) × h.State)
          → socket.there
              (and_then p (λ checked t.
                and_then
                  (wrapped (not_installed "systemd-run") (h.look_path "systemd-run" t))
                  (λ path u.
                    and_then
                      (start_rkt_cli h config.rkt_path (cli_config config) u)
                      (λ c v. made config c path v)))).1
            ≡ socket.there p.1
      there (err e, t) = refl
      there (ok checked, t) =
          found (h.look_path "systemd-run" t) ∙ socket.look_path_keeps "systemd-run" t

  -- New leaves the file of the socket as it is.
  pub new_rktlet_keeps :
      (config : Config) (s : h.State)
      → socket.there (new_rktlet h streaming docker decode config s).1 ≡ socket.there s
  unfolding new_rktlet
  new_rktlet_keeps config s = after (find_rkt h config s) ∙ find_rkt_keeps config s
    where
      after :
          (p : Result Error Config × h.State)
          → socket.there (start_found h streaming docker decode config p).1 ≡ socket.there p.1
      after (err e, t) = refl
      after (ok found, t) = start_services_keeps found t
