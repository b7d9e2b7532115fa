-- ===== src/Runtime/AppAdd/Shape.antt =====
-- What the command that adds an app holds.
use rktlet.Base.{
  sym, ◌∙◌, cons-append, ◌≡◌, refl, ap, inl, inr, String, ◌<>◌, Option, none, some, List, [], ◌∷◌,
  ◌++◌, map, All, All-mono, Has, All-Has, Has-append_left, Has-append_right, All₂, Result, ok,
  ok-injective, arith,
}
use mathlib.Core.Path.{subst}
use rktlet.Base.Chars.{strip_prefix}
use rktlet.Base.Chars.Laws.{strip_prefix-append}
use rktlet.Base.Dict.{entries}
use rktlet.Host.{Host}
use rktlet.Host.Laws.{and_then-eq-ok}
use rktlet.Runtime.AppAdd.{
  log_path_of, generate_app_add_command, mount_args, mnt_volume, linux_args, image_of, command_of,
  maybe_create_host_path_volume, annotation_args, working_dir_args, exec_args,
}
use rktlet.Runtime.AppAdd.Types.{CapsLib, ContainerConfig, Mount}
use rktlet.Runtime.AppName.{build_app_name}

-- The name that rkt takes: that of the first argument `--name=`.
abbrev name_or : Option String → Option String → Option String
name_or none later = later
name_or (some n) later = some n

unfoldable pub name_of : List String → Option String
name_of [] = none
name_of (arg ∷ args) = name_or (strip_prefix "--name=" arg) (name_of args)

-- The arguments behind the four that stand first.
abbrev pub behind_four : List String → List String
behind_four (a ∷ b ∷ c ∷ d ∷ rest) = rest
behind_four _ = []

-- The argument mounts the path, under some name for the volume.
abbrev pub IsVolumeOf : Mount → String → Type 0
IsVolumeOf mnt arg = (volume_name : String) × (arg ≡ mnt_volume volume_name mnt)

abbrev pub mounts_of : List (Option Mount) → List Mount
mounts_of [] = []
mounts_of (none ∷ mounts) = mounts_of mounts
mounts_of (some mnt ∷ mounts) = mnt ∷ mounts_of mounts

-- Where two of seven parts stand.
parts-Has :
    (a b c linux d mounts f : List String)
    → All (λ v. Has v (a ++ b ++ c ++ linux ++ d ++ mounts ++ f)) linux
      × All (λ v. Has v (a ++ b ++ c ++ linux ++ d ++ mounts ++ f)) mounts
parts-Has a b c linux d mounts f = (
  All-mono
      (λ v here. Has-append_left v (a ++ b ++ c ++ linux ++ d ++ mounts) f (
        Has-append_left v (a ++ b ++ c ++ linux ++ d) mounts (
          Has-append_left v (a ++ b ++ c ++ linux) d
            (Has-append_right v (a ++ b ++ c) linux here))))
      linux (All-Has linux),
  All-mono
      (λ v here.
        Has-append_left v (a ++ b ++ c ++ linux ++ d ++ mounts) f
          (Has-append_right v (a ++ b ++ c ++ linux ++ d) mounts here))
      mounts (All-Has mounts),
)

annotation-no_name :
    (path : String)
    → strip_prefix "--name=" ("--annotation=coreos.com/rkt/experiment/kubernetes-log-path=" <> path)
      ≡ none
unfolding strip_prefix
annotation-no_name path = rw (cons-append) (rw cons-append (rw cons-append refl))

module _ (h : Host) where
  pub mount_args-ok :
      (mounts : List (Option Mount)) (s t : h.State) {args : List String}
      → mount_args h mounts s ≡ (ok args, t)
      → All₂ IsVolumeOf (mounts_of mounts) args
  unfolding mount_args
  mount_args-ok [] s t {args = []} e = tt
  mount_args-ok [] s t {args = a ∷ more} e = absurd (ground arith)
  mount_args-ok (none ∷ mounts) s t e = mount_args-ok mounts s t e
  mount_args-ok (some mnt ∷ mounts) s t {args} e =
      let (created, u, _, named) = and_then-eq-ok (maybe_create_host_path_volume h mnt s) _ e in
      let (later, w, rest, last) = and_then-eq-ok (mount_args h mounts (h.new_uuid u).1) _ named in
      let whole : mnt_volume (h.new_uuid u).0 mnt ∷ later ≡ args =
        ok-injective (ap (λ q. q.0) last) in
      subst (λ l. All₂ IsVolumeOf (mnt ∷ mounts_of mounts) l) whole
        (((h.new_uuid u).0, refl), mount_args-ok mounts (h.new_uuid u).1 w rest)

  module _ (sanitize : String → Result String String) (caps : CapsLib) where
    -- Every argument from the Linux options and from the mounts is in the command.
    command_of-Has :
        (sandbox_id image_id image : String) (config : ContainerConfig) (app_name : String)
        (linux mounts : List String)
        → (rest : List String) × (command_of h sanitize caps sandbox_id image_id image config
              app_name linux mounts
            ≡ "app" ∷ "add" ∷ sandbox_id ∷ image_id ∷ rest)
          × Has ("--name=" <> app_name) rest
          × All (λ v. Has v rest) linux
          × All (λ v. Has v rest) mounts
    command_of-Has sandbox_id image_id image config app_name linux mounts =
        let (linux_in, mounts_in) =
          parts-Has (annotation_args config.annotations image)
            (map (λ l. "--user-label=" <> l) (entries config.labels))
            (map (λ e. "--environment=" <> e) (entries config.envs)) linux
            (working_dir_args config.working_dir) mounts (exec_args config.command config.args) in
        (
          _,
          refl,
          inr (inl refl),
          All-mono (λ v here. inr (inr (inr (inr (inr here))))) linux linux_in,
          All-mono (λ v here. inr (inr (inr (inr (inr here))))) mounts mounts_in,
        )

    -- A command that adds an app names the sandbox and the image first; among its arguments are
    -- the app's name, which is the one built from the attempt and the name of the container, all
    -- those for the Linux options, and a volume for each mount that is not nil.
    pub generate_app_add_command-ok :
        (sandbox_id : String) (config : ContainerConfig) (image_id : String) (s t : h.State)
        {cmd : List String}
        → generate_app_add_command h sanitize caps sandbox_id config image_id s ≡ (ok cmd, t)
        → (app_name : String) × (linux volumes rest : List String) × (build_app_name sanitize
              config.attempt config.name
            ≡ ok app_name)
          × (linux_args caps config config.linux ≡ ok linux)
          × All₂ IsVolumeOf (mounts_of config.mounts) volumes
          × (cmd ≡ "app" ∷ "add" ∷ sandbox_id ∷ image_id ∷ rest)
          × Has ("--name=" <> app_name) rest
          × All (λ v. Has v rest) linux
          × All (λ v. Has v rest) volumes
    unfolding generate_app_add_command
    generate_app_add_command-ok sandbox_id config image_id s t e =
        let (image, u, _, named) = and_then-eq-ok (image_of config.image, s) _ e in
        let (app_name, v, built, more) =
          and_then-eq-ok (build_app_name sanitize config.attempt config.name, u) _ named in
        let (linux, w, fine, mounted) =
          and_then-eq-ok (linux_args caps config config.linux, v) _ more in
        let (volumes, x, mounts, last) = and_then-eq-ok (mount_args h config.mounts w) _ mounted in
        let (rest, whole, name, linux_in, volumes_in) =
          command_of-Has sandbox_id image_id image config app_name linux volumes in
        let same : ok
              (command_of h sanitize caps sandbox_id image_id image config app_name linux volumes)
            ≡ ok _ =
          ap (λ q. q.0) last in
        (
          app_name,
          linux,
          volumes,
          rest,
          ap (λ q. q.0) built,
          ap (λ q. q.0) fine,
          mount_args-ok config.mounts _ _ mounts,
          ground arith,
          name,
          linux_in,
          volumes_in,
        )

    command_of-name :
        (sandbox_id image_id image : String) (config : ContainerConfig) (app_name : String)
        (linux mounts : List String)
        → name_of (
            behind_four
              (command_of h sanitize caps sandbox_id image_id image config app_name linux mounts))
          ≡ some app_name
    unfolding name_of
    command_of-name sandbox_id image_id image config app_name linux mounts =
        rw
          (
            annotation-no_name (log_path_of app_name config.log_path),
            strip_prefix-append "--name=" app_name,
          )
          refl

    -- The first name in the command is that of the app, whatever the request holds.
    pub generate_app_add_command-name :
        (sandbox_id : String) (config : ContainerConfig) (image_id : String) (s t : h.State)
        {app_name : String} {rest : List String}
        → generate_app_add_command h sanitize caps sandbox_id config image_id s
          ≡ (ok ("app" ∷ "add" ∷ sandbox_id ∷ image_id ∷ rest), t)
        → build_app_name sanitize config.attempt config.name ≡ ok app_name
        → name_of rest ≡ some app_name
    unfolding generate_app_add_command
    generate_app_add_command-name sandbox_id config image_id s t e is_built =
        let (image, u, _, named) = and_then-eq-ok (image_of config.image, s) _ e in
        let (app_name, v, built, more) =
          and_then-eq-ok (build_app_name sanitize config.attempt config.name, u) _ named in
        let (linux, w, fine, mounted) =
          and_then-eq-ok (linux_args caps config config.linux, v) _ more in
        let (volumes, x, mounts, last) = and_then-eq-ok (mount_args h config.mounts w) _ mounted in
        ap (λ c. name_of (behind_four c)) (sym (ok-injective (ap (λ q. q.0) last)))
        ∙ command_of-name sandbox_id image_id image config app_name linux volumes
        ∙ ap some (ok-injective (sym (ap (λ q. q.0) built) ∙ is_built))
