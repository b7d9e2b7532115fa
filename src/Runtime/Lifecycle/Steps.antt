-- ===== src/Runtime/Lifecycle/Steps.antt =====
-- What each call does to the table of apps.
use mathlib.Core.Path.{subst}
use rktlet.Base.{
  ◌≡◌, refl, sym, ap, ◌∙◌, inl, inr, ◌≤◌, String, Option, none, some, List, [], ◌∷◌, Has, Result,
  ok, Result-cases, arith,
}
use rktlet.Base.Chars.{Lacks}
use rktlet.Host.{Host, Stat, exists, not_exist, stat_failed}
use rktlet.Host.Laws.{and_then-eq-ok}
use rktlet.Cli.{CliOps}
use rktlet.Image.Name.{DockerRef}
use rktlet.Runtime.AppAdd.{
  generate_app_add_command, mount_args, maybe_create_host_path_volume, linux_args, image_of,
  after_stat, after_mkdir,
}
use rktlet.Runtime.AppAdd.Shape.{generate_app_add_command-name}
use rktlet.Runtime.AppAdd.Types.{CapsLib, ContainerConfig, Mount}
use rktlet.Runtime.AppName.{build_app_name, max_uint32, parse_container_id}
use rktlet.Runtime.AppName.RoundTrip.{parse_app_name-build_app_name, parse_container_id_iff}
use rktlet.Runtime.Containers.{
  CreateContainerRequest, create_container, app_command, start_container, stop_container,
  remove_container,
}
use rktlet.Runtime.Containers.Laws.{
  create_container-IsCreated, app_command-ok, app_command-unparsed,
}
use rktlet.Runtime.Lifecycle.{IsRkt, IsStable, App, without_app, id_meant}
use rktlet.Runtime.Lifecycle.Table.{IsSound, id_of}

module _ (h : Host) (cli : CliOps h) (rkt : IsRkt h cli) where
  -- What is done for mounts leaves the table as it is.
  volume_keeps :
      (mnt : Mount) (s : h.State) → rkt.apps (maybe_create_host_path_volume h mnt s).1 ≡ rkt.apps s
  unfolding maybe_create_host_path_volume
  volume_keeps mnt s = after (h.stat mnt.host_path s) ∙ rkt.stat_keeps mnt.host_path s
    where
      made : (p : Option String × h.State) → (after_mkdir h p).1 ≡ p.1
      made (none, t) = refl
      made (some e, t) = refl

      after : (p : Stat × h.State) → rkt.apps (after_stat h mnt.host_path p).1 ≡ rkt.apps p.1
      after (exists, t) = refl
      after (not_exist, t) =
          ap (λ u. rkt.apps u) (made (h.mkdir_all _ mnt.host_path t))
          ∙ rkt.mkdir_all_keeps _ mnt.host_path t
      after (stat_failed e, t) = refl

  mounts_keep :
      (mounts : List (Option Mount)) (s t : h.State) {args : List String}
      → mount_args h mounts s ≡ (ok args, t)
      → rkt.apps t ≡ rkt.apps s
  unfolding mount_args
  mounts_keep [] s t e = ap (λ q. rkt.apps q.1) (sym e)
  mounts_keep (none ∷ mounts) s t e = mounts_keep mounts s t e
  mounts_keep (some mnt ∷ mounts) s t e =
      let (created, u, made, named) = and_then-eq-ok (maybe_create_host_path_volume h mnt s) _ e in
      let (later, w, rest, last) = and_then-eq-ok (mount_args h mounts (h.new_uuid u).1) _ named in
      ap (λ q. rkt.apps q.1) (sym last)
      ∙ mounts_keep mounts (h.new_uuid u).1 w rest
      ∙ rkt.new_uuid_keeps u
      ∙ ap (λ q. rkt.apps q.1) (sym made)
      ∙ volume_keeps mnt s

  module _ (sanitize : String → Result String String) (caps : CapsLib) where
    command_keeps :
        (sandbox_id : String) (config : ContainerConfig) (image_id : String) (s t : h.State)
        {cmd : List String}
        → generate_app_add_command h sanitize caps sandbox_id config image_id s ≡ (ok cmd, t)
        → rkt.apps t ≡ rkt.apps s
    unfolding generate_app_add_command
    command_keeps sandbox_id config image_id s t e =
        let (image, u, i1, named) = and_then-eq-ok (image_of config.image, s) _ e in
        let (app_name, v, i2, more) =
          and_then-eq-ok (build_app_name sanitize config.attempt config.name, u) _ named in
        let (linux, w, i3, mounted) =
          and_then-eq-ok (linux_args caps config config.linux, v) _ more in
        let (volumes, x, mounts, last) = and_then-eq-ok (mount_args h config.mounts w) _ mounted in
        ap (λ q. rkt.apps q.1) (sym last)
        ∙ mounts_keep config.mounts w x mounts
        ∙ ap (λ q. rkt.apps q.1) (sym i3)
        ∙ ap (λ q. rkt.apps q.1) (sym i2)
        ∙ ap (λ q. rkt.apps q.1) (sym i1)

    -- A container that is created is one more app, which was not there before.
    pub create_container-adds :
        (docker : DockerRef) (req : CreateContainerRequest) (id : String) (s t : h.State)
        → IsStable sanitize
        → Lacks b':' req.pod_sandbox_id
        → req.config.attempt ≤ max_uint32
        → create_container h cli sanitize docker caps req s ≡ (ok id, t)
        → (app : App) × (id_of sanitize app ≡ id)
          × IsSound sanitize app
          × (rkt.apps t ≡ app ∷ rkt.apps s)
          × (¬ Has app (rkt.apps s))
    create_container-adds docker req id s t stable clean small e =
        let (name, c) = create_container-IsCreated h cli sanitize docker caps req id s t e in
        let first =
          generate_app_add_command-name h sanitize caps req.pod_sandbox_id req.config c.image_id s
            c.before c.generated c.built in
        let (table, fresh) =
          rkt.adds req.pod_sandbox_id c.image_id name c.rest c.output c.before t c.added first in
        let kept = command_keeps req.pod_sandbox_id req.config c.image_id s c.before c.generated in
        let (s_name, _, parsed) =
          parse_app_name-build_app_name sanitize req.config.attempt req.config.name small c.built in
        (
          (req.pod_sandbox_id, name),
          c.same_id,
          record {
            clean = clean;
            sane = stable req.config.attempt req.config.name name c.built;
            parsed = (req.config.attempt, s_name, parsed);
          },
          table ∙ ap (λ l. (req.pod_sandbox_id, name) ∷ l) kept,
          λ has. fresh (subst (λ l. Has (req.pod_sandbox_id, name) l) (sym kept) has),
        )

  module _ (sanitize : String → Result String String) where
    parsed_of_ok :
        (verb id : String) (s t : h.State)
        → app_command h cli sanitize verb id s ≡ (ok tt, t)
        → (app : App) × (parse_container_id sanitize id ≡ ok app)
    parsed_of_ok verb id s t e = elim (Result-cases (parse_container_id sanitize id)) [
      | inl found ↦ found
      | inr (x, failed) ↦
          let same = sym (app_command-unparsed h cli sanitize verb id x s failed) ∙ e in
          absurd (ground arith)
    ]

    -- Starting or stopping a container leaves the table as it is.
    pub start_container-keeps :
        (id : String) (s t : h.State)
        → start_container h cli sanitize id s ≡ (ok tt, t)
        → rkt.apps t ≡ rkt.apps s
    unfolding start_container
    start_container-keeps id s t e =
        let ((pod, name), parsed) = parsed_of_ok "start" id s t e in
        let (output, done) = app_command-ok h cli sanitize "start" id pod name s t parsed e in
        rkt.starts pod name output s t done

    pub stop_container-keeps :
        (id : String) (s t : h.State)
        → stop_container h cli sanitize id s ≡ (ok tt, t)
        → rkt.apps t ≡ rkt.apps s
    unfolding stop_container
    stop_container-keeps id s t e =
        let ((pod, name), parsed) = parsed_of_ok "stop" id s t e in
        let (output, done) = app_command-ok h cli sanitize "stop" id pod name s t parsed e in
        rkt.stops pod name output s t done

    -- Removing a container takes the app that its ID stands for out of the table.
    pub remove_container-removes :
        (id : String) (s t : h.State)
        → remove_container h cli sanitize id s ≡ (ok tt, t)
        → (app : App) × (id_meant sanitize id ≡ id_of sanitize app)
          × Lacks b':' app.0
          × (rkt.apps t ≡ without_app app (rkt.apps s))
    unfolding remove_container
    remove_container-removes id s t e =
        let (app, parsed) = parsed_of_ok "rm" id s t e in
        let (output, done) = app_command-ok h cli sanitize "rm" id app.0 app.1 s t parsed e in
        let (rest, whole, clean, sane) =
          (parse_container_id_iff sanitize id app.0 app.1).0 parsed in
        (app, rw (parsed, id_meant) refl, clean, rkt.removes app.0 app.1 output s t done)
