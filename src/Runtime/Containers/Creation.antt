-- ===== src/Runtime/Containers/Creation.antt =====
-- When CreateContainer succeeds.
use mathlib.Core.Path.{subst}
use rktlet.Base.{
  err, ◌≡◌, refl, ap, ◌∙◌, ◌⊎◌, inl, inr, String, Bool, true, false, Option, none, some, List, [],
  ◌∷◌, Result, ok, map_err,
}
use rktlet.Errors.{Error, no_default_tag, command_failed, external}
use rktlet.Host.{Host, exists, not_exist, wrapped, and_then, lift, pure, ◌>>=◌}
use rktlet.Host.Laws.{and_then-ok}
use rktlet.Cli.{CliOps}
use rktlet.Image.Name.{DockerRef, get_canonical_image_name}
use rktlet.Runtime.AppAdd.{
  generate_app_add_command, linux_args, mount_args, maybe_create_host_path_volume, mode_perm,
  mnt_volume, image_of, command_of, after_stat, after_mkdir,
}
use rktlet.Runtime.AppAdd.Shape.{name_of, generate_app_add_command-name}
use rktlet.Runtime.AppAdd.Types.{CapsLib, ContainerConfig, Mount}
use rktlet.Runtime.AppName.{build_app_name, build_container_id}
use rktlet.Runtime.Containers.{CreateContainerRequest, image_spec_of, create_container}

-- What follows on the four words `app add`, the sandbox and the image.
abbrev behind_image : List String → List String
behind_image (app ∷ add ∷ sandbox ∷ image ∷ rest) = rest
behind_image _ = []

module _ (h : Host) where
  -- The path is there, or it is missing and can be made.
  abbrev pub IsUsable : String → h.State → Type 0
  IsUsable path s =
      (t : h.State) × ((h.stat path s ≡ (exists, t))
        ⊎ ((h.stat path s ≡ (not_exist, t))
            × ((u : h.State) × (h.mkdir_all mode_perm path t ≡ (none, u)))))

  volume_ready :
      (mnt : Mount) (s : h.State)
      → IsUsable mnt.host_path s
      → (made : Bool) × (t : h.State) × (maybe_create_host_path_volume h mnt s ≡ (ok made, t))
  unfolding maybe_create_host_path_volume
  volume_ready mnt s (t, inl found) = (false, t, ap (after_stat h mnt.host_path) found)
  volume_ready mnt s (t, inr (missing, (u, made))) =
      (true, u, ap (after_stat h mnt.host_path) missing ∙ ap (after_mkdir h) made)

  -- The host paths of the mounts are there or can be made, each when its turn comes.
  abbrev pub AreUsable : List (Option Mount) → h.State → Type 0
  AreUsable [] s = Unit
  AreUsable (none ∷ mounts) s = AreUsable mounts s
  AreUsable (some mnt ∷ mounts) s =
      IsUsable mnt.host_path s
      × AreUsable mounts (h.new_uuid (maybe_create_host_path_volume h mnt s).1).1

  mounts_ready :
      (mounts : List (Option Mount)) (s : h.State)
      → AreUsable mounts s
      → (args : List String) × (t : h.State) × (mount_args h mounts s ≡ (ok args, t))
  unfolding mount_args
  mounts_ready [] s usable = ([], s, refl)
  mounts_ready (none ∷ mounts) s usable = mounts_ready mounts s usable
  mounts_ready (some mnt ∷ mounts) s (usable, later_usable) =
      let (made, t, ready) = volume_ready mnt s usable in
      let (args, u, later) =
        mounts_ready mounts (h.new_uuid t).1
          (subst (λ q. AreUsable mounts (h.new_uuid q.1).1) ready later_usable) in
      (mnt_volume (h.new_uuid t).0 mnt ∷ args, u, and_then-ok _ ready ∙ and_then-ok _ later)

  module _ (cli : CliOps h) (sanitize : String → Result String String) (docker : DockerRef)
      (caps : CapsLib) where
    command_ready :
        (sandbox_id image_id : String) (config : ContainerConfig) (s : h.State)
        {image app_name : String} {linux : List String}
        → config.image ≡ some image
        → build_app_name sanitize config.attempt config.name ≡ ok app_name
        → linux_args caps config config.linux ≡ ok linux
        → AreUsable config.mounts s
        → (rest : List String) × (t : h.State) × (generate_app_add_command h sanitize caps
              sandbox_id config image_id s
            ≡ (ok ("app" ∷ "add" ∷ sandbox_id ∷ image_id ∷ rest), t))
    unfolding generate_app_add_command
    command_ready sandbox_id image_id config s {image} {app_name} {linux} given built allowed
          usable =
        let (mounts, t, ready) = mounts_ready config.mounts s usable in
        (
          behind_image
              (command_of h sanitize caps sandbox_id image_id image config app_name linux mounts),
          t,
          and_then-ok _ (λ i. (image_of (given i), s))
              ∙ and_then-ok _ (λ i. (built i, s))
              ∙ and_then-ok _ (λ i. (allowed i, s))
              ∙ and_then-ok _ ready,
        )

    -- What CreateContainer makes of rkt's answer: the ID, or an error that holds rkt's.
    abbrev pub answered :
        String → Result String (List String) × h.State → Result Error String × h.State
    answered id (ok output, t) = (ok id, t)
    answered id (err e, t) = (err (command_failed (external e)), t)

    -- If the request holds an image with a canonical name, an app name can be built of its attempt
    -- and name, its Linux options are allowed, and each host path of its mounts is there or can be
    -- made when its turn comes, then CreateContainer generates a command and runs it, one `rkt app add`
    -- of that image in that sandbox, with a first `--name=` that is the app name; it succeeds, with the ID that is built
    -- of the sandbox and the app name, if that command does, and else fails with its error.
    pub create_container-answered :
        (req : CreateContainerRequest) (s : h.State) {image image_id app_name : String}
        {linux : List String}
        → req.config.image ≡ some image
        → get_canonical_image_name docker image ≡ ok image_id
        → build_app_name sanitize req.config.attempt req.config.name ≡ ok app_name
        → linux_args caps req.config req.config.linux ≡ ok linux
        → AreUsable req.config.mounts s
        → (rest : List String) × (t : h.State) × (generate_app_add_command h sanitize caps
              req.pod_sandbox_id req.config image_id s
            ≡ (ok ("app" ∷ "add" ∷ req.pod_sandbox_id ∷ image_id ∷ rest), t))
          × (name_of rest ≡ some app_name)
          × (create_container h cli sanitize docker caps req s
              ≡ answered
                  (build_container_id req.pod_sandbox_id app_name)
                  (cli.run_command "app" ("add" ∷ req.pod_sandbox_id ∷ image_id ∷ rest) t))
    unfolding create_container
    create_container-answered req s {image_id = image_id} {app_name = app_name} given canonical
          built allowed usable =
        let (rest, t, generated) =
          command_ready req.pod_sandbox_id image_id req.config s given built allowed usable in
        (
          rest,
          t,
          generated,
          generate_app_add_command-name h sanitize caps req.pod_sandbox_id req.config image_id s t
              generated built,
          and_then-ok _ (λ i. (image_spec_of (given i), s))
              ∙ and_then-ok _ (λ i. (map_err (no_default_tag "") (canonical i), s))
              ∙ and_then-ok _ generated
              ∙ last (cli.run_command "app" ("add" ∷ req.pod_sandbox_id ∷ image_id ∷ rest) t),
        )
      where
        last :
            (p : Result String (List String) × h.State)
            → and_then (wrapped (λ e. command_failed (external e)) p) (λ output.
              lift (build_app_name sanitize req.config.attempt req.config.name) >>= λ name.
              pure (build_container_id req.pod_sandbox_id name))
              ≡ answered (build_container_id req.pod_sandbox_id app_name) p
        last (ok output, u) = and_then-ok _ (λ i. (built i, u))
        last (err e, u) = refl
