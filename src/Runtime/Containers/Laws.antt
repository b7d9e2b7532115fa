-- ===== src/Runtime/Containers/Laws.antt =====
-- The ID that creating a container gives, and what the calls that take it do with it.
use rktlet.Base.{
  ◌≡◌, refl, sym, ap, ◌∙◌, String, ◌<>◌, Option, none, some, List, [], ◌∷◌, Has, Result, ok, err,
  ok-injective, map_err, map_err-ok, arith,
}
use rktlet.Base.Chars.{Lacks}
use rktlet.Errors.{Error, external, command_failed, no_default_tag}
use rktlet.Host.{Host, and_then, wrapped}
use rktlet.Host.Laws.{and_then-eq-ok, and_then-ok, and_then-err, wrapped-eq-ok}
use rktlet.Cli.{CliOps}
use rktlet.Image.Name.{DockerRef, get_canonical_image_name}
use rktlet.Runtime.AppAdd.{generate_app_add_command}
use rktlet.Runtime.AppAdd.Shape.{generate_app_add_command-ok}
use rktlet.Runtime.AppAdd.Types.{CapsLib}
use rktlet.Runtime.AppName.{build_container_id, parse_container_id, build_app_name}
use rktlet.Runtime.AppName.RoundTrip.{parse_container_id-build_container_id}
use rktlet.Runtime.Containers.{
  CreateContainerRequest, create_container, app_command, start_container, stop_container,
  remove_container, run_all, image_spec_of,
}

-- The outcome of a command whose output is of no account.
abbrev pub ran : {S : Type 0} → Result String (List String) × S → Result Error (Unit {0}) × S
ran (ok output, s) = (ok tt, s)
ran (err e, s) = (err (command_failed (external e)), s)

module _ (h : Host) (cli : CliOps h) (sanitize : String → Result String String) where
  ran-eq :
      (p : Result String (List String) × h.State)
      → and_then (wrapped (λ e. command_failed (external e)) p) (λ output s. (ok tt, s)) ≡ ran p
  ran-eq (ok output, s) = refl
  ran-eq (err e, s) = refl

  app_command-parsed :
      (verb container_id uuid app_name : String) (s : h.State)
      → parse_container_id sanitize container_id ≡ ok (uuid, app_name)
      → app_command h cli sanitize verb container_id s
        ≡ ran (cli.run_command "app" (verb ∷ uuid ∷ ("--app=" <> app_name) ∷ []) s)
  unfolding app_command
  app_command-parsed verb container_id uuid app_name s parsed =
      and_then-ok _ (λ i. (parsed i, s)) ∙ ran-eq _

  ran-ok :
      (p : Result String (List String) × h.State) {t : h.State}
      → ran p ≡ (ok tt, t)
      → (output : List String) × (p ≡ (ok output, t))
  ran-ok (ok output, s) e = (output, λ i. (ok output, (e i).1))
  ran-ok (err x, s) e = absurd (ground arith)

  -- A call of StartContainer, StopContainer or RemoveContainer that succeeds has run its command.
  pub app_command-ok :
      (verb container_id uuid app_name : String) (s t : h.State)
      → parse_container_id sanitize container_id ≡ ok (uuid, app_name)
      → app_command h cli sanitize verb container_id s ≡ (ok tt, t)
      → (output : List String) × (cli.run_command "app"
            (verb ∷ uuid ∷ ("--app=" <> app_name) ∷ [])
            s
          ≡ (ok output, t))
  app_command-ok verb container_id uuid app_name s t parsed e =
      ran-ok _ (sym (app_command-parsed verb container_id uuid app_name s parsed) ∙ e)

  -- StartContainer, StopContainer and RemoveContainer run no command for an ID that is not parsed.
  pub app_command-unparsed :
      (verb container_id : String) (e : Error) (s : h.State)
      → parse_container_id sanitize container_id ≡ err e
      → app_command h cli sanitize verb container_id s ≡ (err e, s)
  unfolding app_command
  app_command-unparsed verb container_id e s failed = and_then-err _ (λ i. (failed i, s))

  -- The commands of the calls that take a container's ID.
  pub record IsContainer (id sandbox_id app_name : String) : Type 0 where
    pub starts :
        (s : h.State)
        → start_container h cli sanitize id s
          ≡ ran (cli.run_command "app" ("start" ∷ sandbox_id ∷ ("--app=" <> app_name) ∷ []) s)
    pub stops :
        (s : h.State)
        → stop_container h cli sanitize id s
          ≡ ran (cli.run_command "app" ("stop" ∷ sandbox_id ∷ ("--app=" <> app_name) ∷ []) s)
    pub removes :
        (s : h.State)
        → remove_container h cli sanitize id s
          ≡ ran (cli.run_command "app" ("rm" ∷ sandbox_id ∷ ("--app=" <> app_name) ∷ []) s)

  parsed-IsContainer :
      (id sandbox_id app_name : String)
      → parse_container_id sanitize id ≡ ok (sandbox_id, app_name)
      → IsContainer id sandbox_id app_name
  unfolding start_container stop_container remove_container
  parsed-IsContainer id sandbox_id app_name parsed = record {
    starts = λ s. app_command-parsed "start" id sandbox_id app_name s parsed;
    stops = λ s. app_command-parsed "stop" id sandbox_id app_name s parsed;
    removes = λ s. app_command-parsed "rm" id sandbox_id app_name s parsed;
  }

  module _ (docker : DockerRef) (caps : CapsLib) where
    -- How a container was created.
    pub record IsCreated (req : CreateContainerRequest) (id app_name : String) (s t : h.State)
        : Type 0 where
      pub image : String
      pub image_id : String
      pub rest : List String
      pub output : List String
      pub before : h.State
      pub built : build_app_name sanitize req.config.attempt req.config.name ≡ ok app_name
      pub same_id : build_container_id req.pod_sandbox_id app_name ≡ id
      pub has_image : req.config.image ≡ some image
      pub canonical : get_canonical_image_name docker image ≡ ok image_id
      pub generated :
          generate_app_add_command h sanitize caps req.pod_sandbox_id req.config image_id s
          ≡ (ok ("app" ∷ "add" ∷ req.pod_sandbox_id ∷ image_id ∷ rest), before)
      pub added :
          cli.run_command "app" ("add" ∷ req.pod_sandbox_id ∷ image_id ∷ rest) before
          ≡ (ok output, t)
      pub named : Has ("--name=" <> app_name) rest

    image_spec_of-ok :
        (o : Option String) {image : String} → image_spec_of o ≡ ok image → o ≡ some image
    image_spec_of-ok none e = absurd (ground arith)
    image_spec_of-ok (some image) e = ap some (ok-injective e)

    pub create_container-IsCreated :
        (req : CreateContainerRequest) (id : String) (s t : h.State)
        → create_container h cli sanitize docker caps req s ≡ (ok id, t)
        → (app_name : String) × IsCreated req id app_name s t
    unfolding create_container
    create_container-IsCreated req id s t e =
        let (image, u, spec, e1) = and_then-eq-ok (image_spec_of req.config.image, s) _ e in
        let (image_id, v, canonical, e2) =
          and_then-eq-ok (map_err (no_default_tag "") (get_canonical_image_name docker image), u) _
            e1 in
        let (command, w, generated, e3) =
          and_then-eq-ok
            (generate_app_add_command h sanitize caps req.pod_sandbox_id req.config image_id v) _
            e2 in
        let (output, x, added, e4) =
          and_then-eq-ok (run_all h cli sanitize docker caps command w) _ e3 in
        let (app_name, y, built, last) =
          and_then-eq-ok (build_app_name sanitize req.config.attempt req.config.name, x) _ e4 in
        let (name, linux, volumes, rest, built', _, _, whole, named, _, _) =
          generate_app_add_command-ok h sanitize caps req.pod_sandbox_id req.config image_id v w
            generated in
        let same : name ≡ app_name = ok-injective (sym built' ∙ ap (λ q. q.0) built) in
        (
          name,
          record {
            image = image;
            image_id = image_id;
            rest = rest;
            output = output;
            before = w;
            built = built';
            same_id =
                ap (λ n. build_container_id req.pod_sandbox_id n) same
                ∙ ok-injective (ap (λ q. q.0) last);
            has_image = image_spec_of-ok req.config.image (ap (λ q. q.0) spec);
            canonical =
                map_err-ok _ (get_canonical_image_name docker image) (ap (λ q. q.0) canonical);
            generated =
                ap
                  (λ z.
                    generate_app_add_command h sanitize caps req.pod_sandbox_id req.config image_id
                      z)
                  (ap (λ q. q.1) spec ∙ ap (λ q. q.1) canonical)
                ∙ generated
                ∙ (λ i. (ok (whole i), w));
            added = wrapped-eq-ok _ _ (
                ap (λ c. run_all h cli sanitize docker caps c w) (sym whole)
                ∙ added
                ∙ (λ i. (ok output, ((λ j. (built j).1) ∙ (λ j. (last j).1)) i)));
            named = named;
          },
        )

    -- A container is created by one `rkt app add` of the canonical name of its image, in the
    -- sandbox of the request and under the name that is built from its attempt and its name, as the generated command says. If
    -- SanitizeACName leaves the names that are built so as they are, and the sandbox's UUID has no
    -- colon, then starting, stopping and removing the container by the ID that was returned are
    -- one `rkt app start`, `rkt app stop` or `rkt app rm` of that name in that sandbox.
    pub create_container-ok :
        (req : CreateContainerRequest) (id : String) (s t : h.State)
        → ((app_name : String)
            → build_app_name sanitize req.config.attempt req.config.name ≡ ok app_name
            → sanitize app_name ≡ ok app_name)
        → Lacks b':' req.pod_sandbox_id
        → create_container h cli sanitize docker caps req s ≡ (ok id, t)
        → (app_name : String) × IsCreated req id app_name s t
          × IsContainer id req.pod_sandbox_id app_name
    create_container-ok req id s t sane clean e =
        let (app_name, created) = create_container-IsCreated req id s t e in
        (
          app_name,
          created,
          parsed-IsContainer id req.pod_sandbox_id app_name (
              ap (λ i. parse_container_id sanitize i) (sym created.same_id)
              ∙ parse_container_id-build_container_id sanitize req.pod_sandbox_id app_name clean
                  (sane app_name created.built)),
        )
