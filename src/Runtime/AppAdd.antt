-- ===== src/Runtime/AppAdd.antt =====
-- rktlet/runtime/helpers.go and caps.go: the command that adds an app to a pod.
pub mod Types
pub mod Cpu
pub mod Laws
pub mod Shape
pub mod Plain
pub mod Options
pub mod RoundTrip
use rktlet.Base.{
  ℕ, String, ◌<>◌, Bool, true, false, not, ◌&&◌, Option, none, some, List, [], ◌∷◌, ◌++◌, map, join,
  ◌==◌, nat_eq, text_eq, if◌then◌else◌, Result, ok, err, map_err,
}
use rktlet.Base.Dict.{Dict, entries}
use rktlet.Base.Int.{ℤ, pos, negsuc, decimal_int}
use rktlet.Errors.{Error, external, user_and_username, nil_dereference}
use rktlet.Host.{Host, Stat, exists, not_exist, stat_failed, Act, ◌>>=◌, pure, lift}
use rktlet.Runtime.AppAdd.Types.{
  Capability, SecurityContext, LinuxResources, LinuxContainerConfig, Mount, ContainerConfig,
  CapsLib,
}
use rktlet.Runtime.AppAdd.Cpu.{cpu_quota_to_milli_cores}
use rktlet.Runtime.Annotations.{anno_image_name}
use rktlet.Runtime.AppName.{build_app_name}
use rktlet.Runtime.Seccomp.{default_seccomp, generate_seccomp_arg}

-- caps.go
abbrev pub default_capabilities : List String
default_capabilities =
    "CAP_CHOWN" ∷ "CAP_DAC_OVERRIDE" ∷ "CAP_FSETID" ∷ "CAP_FOWNER" ∷ "CAP_MKNOD" ∷ "CAP_NET_RAW"
    ∷ "CAP_SETGID" ∷ "CAP_SETUID" ∷ "CAP_SETFCAP" ∷ "CAP_SETPCAP" ∷ "CAP_NET_BIND_SERVICE"
    ∷ "CAP_SYS_CHROOT" ∷ "CAP_KILL" ∷ "CAP_AUDIT_WRITE" ∷ []

-- `if test { cmd = append(cmd, arg) }`
abbrev pub only_if : Bool → String → List String
only_if b arg = if b then arg ∷ [] else []

abbrev pub is_positive : ℤ → Bool
is_positive (pos n) = not (n == 0)
is_positive (negsuc n) = false

abbrev pub is_nonzero : ℤ → Bool
is_nonzero (pos n) = not (n == 0)
is_nonzero (negsuc n) = true

unfoldable pub resource_args : LinuxResources → List String
resource_args r =
    let milli_cores = cpu_quota_to_milli_cores r.cpu_quota r.cpu_period in
    only_if (is_positive r.cpu_shares) ("--cpu-shares=" <> decimal_int r.cpu_shares)
    ++ only_if (is_positive milli_cores) ("--cpu=" <> decimal_int milli_cores <> "m")
    ++ only_if (is_nonzero r.memory_limit_in_bytes)
        ("--memory=" <> decimal_int r.memory_limit_in_bytes)
    ++ only_if (is_nonzero r.oom_score_adj) ("--oom-score-adj=" <> decimal_int r.oom_score_adj)

abbrev caps_retain : List String → List String
caps_retain [] = []
caps_retain (c ∷ caplist) = ("--caps-retain=" <> join "," (c ∷ caplist)) ∷ []

abbrev user_arg : Option ℤ → List String
user_arg none = []
user_arg (some uid) = ("--user=" <> decimal_int uid) ∷ []

-- The check and the arguments for the user.
unfoldable pub user_args : Option ℤ → String → Result Error (List String)
user_args none username = ok (only_if (not (username == "")) ("--user=" <> username))
user_args (some uid) username =
    if not (username == "") then err user_and_username else ok (user_arg (some uid))

abbrev groups_args : List ℤ → List String
groups_args [] = []
groups_args (g ∷ groups) = ("--supplementary-gids=" <> join "," (map decimal_int (g ∷ groups))) ∷ []

-- The seccomp argument, then the capabilities to retain, or the first error of the two.
abbrev confined : Result Error String → Result Error (List String) → Result Error (List String)
confined (err e) caplist = err e
confined (ok seccomp_arg) (err e) = err e
confined (ok seccomp_arg) (ok caplist) = ok (seccomp_arg ∷ caps_retain caplist)

-- The arguments of one part before those of the next, or the first error.
abbrev pub followed_by :
    Result Error (List String) → Result Error (List String) → Result Error (List String)
followed_by (err e) later = err e
followed_by (ok args) (err e) = err e
followed_by (ok args) (ok later) = ok (args ++ later)

abbrev pub resources_of : Option LinuxResources → List String
resources_of none = []
resources_of (some r) = resource_args r

module _ (caps : CapsLib) where
  -- caps.go
  abbrev pub tweak_capabilities :
      List String → List String → List String → Result Error (List String)
  tweak_capabilities basic_caps add_caps drop_caps =
      map_err external (caps.tweak_capabilities basic_caps add_caps drop_caps)

  abbrev pub get_all_capabilities : List String
  get_all_capabilities = caps.all_capabilities

  abbrev tweaked : Option Capability → Result Error (List String)
  tweaked none = ok []
  tweaked (some c) = tweak_capabilities default_capabilities c.add_capabilities c.drop_capabilities

  unfoldable pub confinement_args : ContainerConfig → SecurityContext → Result Error (List String)
  confinement_args config sc =
      if sc.privileged
      then ok (default_seccomp ∷ caps_retain get_all_capabilities)
      else confined (generate_seccomp_arg sc.seccomp_profile_path config.annotations config.name)
          (tweaked sc.capabilities)

  -- The arguments for a security context.
  unfoldable pub security_args : ContainerConfig → SecurityContext → Result Error (List String)
  security_args config sc = followed_by (confinement_args config sc) (
      followed_by (user_args sc.run_as_user sc.run_as_username) (
        ok (
          groups_args sc.supplemental_groups
          ++ only_if sc.readonly_rootfs "--readonly-rootfs=true")))

  abbrev context_of : ContainerConfig → Option SecurityContext → Result Error (List String)
  context_of config none = ok []
  context_of config (some sc) = security_args config sc

  unfoldable pub linux_args :
      ContainerConfig → Option LinuxContainerConfig → Result Error (List String)
  linux_args config none = ok []
  linux_args config (some linux) =
      followed_by (ok (resources_of linux.resources)) (context_of config linux.security_context)

abbrev rest_of : List String → List String
rest_of [] = []
rest_of (c ∷ command) = command

abbrev exec_arg : List String → List String
exec_arg [] = []
exec_arg (c ∷ command) = ("--exec=" <> c) ∷ []

abbrev delimited : List String → List String
delimited [] = []
delimited (a ∷ args) = ("--" ∷ a ∷ args) ++ "---" ∷ []

-- The command of the app and its arguments.
unfoldable pub exec_args : List String → List String → List String
exec_args command args = exec_arg command ++ delimited (rest_of command ++ args)

abbrev show_bool : Bool → String
show_bool true = "true"
show_bool false = "false"

unfoldable pub mnt_volume : String → Mount → String
mnt_volume volume_name mnt =
    "--mnt-volume=name="
    <> volume_name
    <> ",kind=host,source="
    <> mnt.host_path
    <> ",target="
    <> mnt.container_path
    <> ",readOnly="
    <> show_bool mnt.readonly

-- os.ModePerm
abbrev pub mode_perm : ℕ
mode_perm = 0o777

unfoldable pub log_path_of : String → String → String
log_path_of app_name log_path = if log_path == "" then app_name <> "_0.log" else log_path

-- The annotations of the request, then the one in which the image's name is kept.
abbrev pub annotation_args : Dict → String → List String
annotation_args annotations image =
    map (λ a. "--user-annotation=" <> a)
      (entries annotations ++ (anno_image_name <> "=" <> image) ∷ [])

abbrev pub working_dir_args : String → List String
working_dir_args dir = only_if (not (dir == "")) ("--working-dir=" <> dir)

-- config.Image.Image, of an image spec that may be nil
abbrev pub image_of : Option String → Result Error String
image_of none = err nil_dereference
image_of (some image) = ok image

module _ (h : Host) where
  -- What is returned after os.Stat: for a path that is missing, what os.MkdirAll says.
  abbrev pub after_mkdir : Option String × h.State → Result Error Bool × h.State
  after_mkdir (none, s) = (ok true, s)
  after_mkdir (some e, s) = (err (external e), s)

  abbrev pub after_stat : String → Stat × h.State → Result Error Bool × h.State
  after_stat host_path (exists, s) = (ok false, s)
  after_stat host_path (not_exist, s) = after_mkdir (h.mkdir_all mode_perm host_path s)
  after_stat host_path (stat_failed e, s) = (err (external e), s)

  unfoldable pub maybe_create_host_path_volume : Mount → Act h.State Bool
  maybe_create_host_path_volume mount s = after_stat mount.host_path (h.stat mount.host_path s)

  abbrev new_uuid : Act h.State String
  new_uuid s = let (u, s') = h.new_uuid s in (ok u, s')

  -- The loop over the mounts.
  unfoldable pub mount_args : List (Option Mount) → Act h.State (List String)
  mount_args [] = pure []
  mount_args (none ∷ mounts) = mount_args mounts
  mount_args (some mnt ∷ mounts) = do
    created ← maybe_create_host_path_volume mnt
    volume_name ← new_uuid
    args ← mount_args mounts
    pure (mnt_volume volume_name mnt ∷ args)

  module _ (sanitize : String → Result String String) (caps : CapsLib) where
    -- The command, from the parts that can fail.
    abbrev pub command_of :
        String
        → String
        → String
        → ContainerConfig
        → String
        → List String
        → List String
        → List String
    command_of sandbox_id image_id image config app_name linux mounts =
        ("app"
          ∷ "add"
          ∷ sandbox_id
          ∷ image_id
          ∷ ("--annotation=coreos.com/rkt/experiment/kubernetes-log-path="
              <> log_path_of app_name config.log_path)
          ∷ ("--name=" <> app_name)
          ∷ "--stdin=stream"
          ∷ "--stdout=stream"
          ∷ "--stderr=stream"
          ∷ [])
        ++ annotation_args config.annotations image
        ++ map (λ l. "--user-label=" <> l) (entries config.labels)
        ++ map (λ e. "--environment=" <> e) (entries config.envs)
        ++ linux
        ++ working_dir_args config.working_dir
        ++ mounts
        ++ exec_args config.command config.args

    unfoldable pub generate_app_add_command :
        String → ContainerConfig → String → Act h.State (List String)
    generate_app_add_command sandbox_id config image_id = do
      image ← lift (image_of config.image)
      app_name ← lift (build_app_name sanitize config.attempt config.name)
      linux ← lift (linux_args caps config config.linux)
      mounts ← mount_args config.mounts
      pure (command_of sandbox_id image_id image config app_name linux mounts)
