-- ===== src/Runtime/AppAdd/Plain.antt =====
-- Which arguments of the command that adds an app are neither annotations nor labels.
use rktlet.Base.{
  ◌≡◌, refl, sym, ap, ◌∙◌, String, ◌<>◌, Bool, true, false, not, Option, none, some, List, [], ◌∷◌,
  ◌++◌, All, All-append, All₂, ◌==◌, text_eq, Result, ok, err, ok-injective, Bool-cases,
  Option-cases, ◌||◌, arith, inl, inr,
}
use mathlib.Core.List.{append-nil}
use mathlib.Core.Path.{subst}
use rktlet.Base.Chars.Laws.{differs}
use rktlet.Base.Chars.{strip_prefix}
use rktlet.Base.Dict.{Dict}
use rktlet.Base.Int.{ℤ, decimal_int}
use rktlet.Runtime.AppAdd.Cpu.{cpu_quota_to_milli_cores}
use rktlet.Runtime.AppAdd.{
  is_positive, is_nonzero, only_if, caps_retain, user_args, groups_args, confined, followed_by,
  resources_of, resource_args, tweaked, confinement_args, security_args, context_of, linux_args,
  exec_arg, delimited, rest_of, exec_args, mnt_volume, working_dir_args,
}
use rktlet.Runtime.AppAdd.Shape.{IsVolumeOf}
use rktlet.Runtime.AppAdd.Types.{
  CapsLib, ContainerConfig, SecurityContext, LinuxContainerConfig, LinuxResources, Mount,
}
use rktlet.Runtime.Seccomp.{
  generate_seccomp_arg, seccomp_arg_of, annotated_profile, default_seccomp,
}
use rktlet.Runtime.UserArgs.{options_of}
use rktlet.Runtime.UserArgs.Plain.{IsPlain, IsPlain-append, IsPlain-IsOption, options_of-append}

abbrev pub ArePlain : List String → Type 0
ArePlain = All IsPlain

only_if-ArePlain : (b : Bool) (arg : String) → IsPlain arg → ArePlain (only_if b arg)
only_if-ArePlain true arg h = (h, tt)
only_if-ArePlain false arg h = tt

-- What can be made of two parts that can fail.
followed_by-ArePlain :
    (first later : Result _ (List String)) {args : List String}
    → ((xs : List String) → first ≡ ok xs → ArePlain xs)
    → ((ys : List String) → later ≡ ok ys → ArePlain ys)
    → followed_by first later ≡ ok args
    → ArePlain args
followed_by-ArePlain (err e) later h k made = absurd (ground arith)
followed_by-ArePlain (ok xs) (err e) h k made = absurd (ground arith)
followed_by-ArePlain (ok xs) (ok ys) h k made =
    subst ArePlain (ok-injective made) (All-append IsPlain xs ys (h xs refl) (k ys refl))

caps_retain-ArePlain : (caplist : List String) → ArePlain (caps_retain caplist)
unfolding differs strip_prefix
caps_retain-ArePlain [] = tt
caps_retain-ArePlain (c ∷ caplist) = (IsPlain-append "--caps-retain=" _ refl refl refl, tt)

default_seccomp-IsPlain : IsPlain default_seccomp
unfolding differs strip_prefix
default_seccomp-IsPlain = (refl, refl, refl)

seccomp_arg_of-IsPlain :
    (profile : String) {arg : String} → seccomp_arg_of profile ≡ ok arg → IsPlain arg
unfolding seccomp_arg_of strip_prefix
seccomp_arg_of-IsPlain profile {arg} e =
    elim (Bool-cases (profile == "unconfined" || profile == "")) [
      | inl known ↦ subst IsPlain (ok-injective (rw known at e)) default_seccomp-IsPlain
      | inr other ↦ elim (Bool-cases (profile == "docker/default")) [
        | inl docker ↦
            subst IsPlain {x = ""} (ok-injective (rw docker at (rw other at e))) (refl, refl, refl)
        | inr unknown ↦ let failed = (rw unknown at (rw other at e)) in absurd (ground arith)
      ]
    ]

generate_seccomp_arg-IsPlain :
    (path : String) (annotations : Dict) (name : String) {arg : String}
    → generate_seccomp_arg path annotations name ≡ ok arg
    → IsPlain arg
unfolding generate_seccomp_arg
generate_seccomp_arg-IsPlain path annotations name {arg} e = elim (Bool-cases (path == "")) [
  | inr given ↦ seccomp_arg_of-IsPlain path (rw given at e)
  | inl empty ↦ elim (Option-cases (annotated_profile annotations name)) [
    | inl none_there ↦
        subst IsPlain (ok-injective (rw none_there at (rw empty at e))) default_seccomp-IsPlain
    | inr (profile, found) ↦
        seccomp_arg_of-IsPlain profile (rw (found, generate_seccomp_arg) at (rw empty at e))
  ]
]

-- Four options, each only if its test holds.
options-ArePlain :
    (a b c d : Bool) (w x y z : String)
    → IsPlain w
    → IsPlain x
    → IsPlain y
    → IsPlain z
    → ArePlain (only_if a w ++ only_if b x ++ only_if c y ++ only_if d z)
options-ArePlain a b c d w x y z hw hx hy hz =
    All-append IsPlain (only_if a w ++ only_if b x ++ only_if c y) (only_if d z)
      (All-append IsPlain (only_if a w ++ only_if b x) (only_if c y)
        (All-append IsPlain (only_if a w) (only_if b x) (only_if-ArePlain a w hw)
          (only_if-ArePlain b x hx))
        (only_if-ArePlain c y hy))
      (only_if-ArePlain d z hz)

resource_args-ArePlain : (r : LinuxResources) → ArePlain (resource_args r)
unfolding resource_args differs strip_prefix
resource_args-ArePlain r =
    let milli_cores = cpu_quota_to_milli_cores r.cpu_quota r.cpu_period in
    options-ArePlain (is_positive r.cpu_shares) (is_positive milli_cores)
      (is_nonzero r.memory_limit_in_bytes) (is_nonzero r.oom_score_adj)
      ("--cpu-shares=" <> decimal_int r.cpu_shares) ("--cpu=" <> decimal_int milli_cores <> "m")
      ("--memory=" <> decimal_int r.memory_limit_in_bytes)
      ("--oom-score-adj=" <> decimal_int r.oom_score_adj)
      (IsPlain-append "--cpu-shares=" _ refl refl refl) (IsPlain-append "--cpu=" _ refl refl refl)
      (IsPlain-append "--memory=" _ refl refl refl)
      (IsPlain-append "--oom-score-adj=" _ refl refl refl)

groups_args-ArePlain : (groups : List ℤ) → ArePlain (groups_args groups)
unfolding differs strip_prefix
groups_args-ArePlain [] = tt
groups_args-ArePlain (g ∷ groups) = (IsPlain-append "--supplementary-gids=" _ refl refl refl, tt)

user_args-ArePlain :
    (uid : Option ℤ) (username : String) {args : List String}
    → user_args uid username ≡ ok args
    → ArePlain args
unfolding user_args differs strip_prefix
user_args-ArePlain none username e =
    subst ArePlain (ok-injective e)
      (only_if-ArePlain _ _ (IsPlain-append "--user=" _ refl refl refl))
user_args-ArePlain (some uid) username e = elim (Bool-cases (username == "")) [
  | inl empty ↦
      subst ArePlain (ok-injective (rw empty at e))
        (IsPlain-append "--user=" (decimal_int uid) refl refl refl, tt)
  | inr given ↦ let failed = (rw given at e) in absurd (ground arith)
]

module _ (caps : CapsLib) where
  confined-ArePlain :
      (seccomp_arg : Result _ String) (caplist : Result _ (List String)) {args : List String}
      → ((arg : String) → seccomp_arg ≡ ok arg → IsPlain arg)
      → confined seccomp_arg caplist ≡ ok args
      → ArePlain args
  confined-ArePlain (err e) caplist h made = absurd (ground arith)
  confined-ArePlain (ok arg) (err e) h made = absurd (ground arith)
  confined-ArePlain (ok arg) (ok caplist) h made =
      subst ArePlain (ok-injective made) (h arg refl, caps_retain-ArePlain caplist)

  confinement_args-ArePlain :
      (config : ContainerConfig) (sc : SecurityContext) {args : List String}
      → confinement_args caps config sc ≡ ok args
      → ArePlain args
  unfolding confinement_args
  confinement_args-ArePlain config sc e = elim (Bool-cases sc.privileged) [
    | inl privileged ↦
        subst ArePlain (ok-injective (rw privileged at e))
          (default_seccomp-IsPlain, caps_retain-ArePlain caps.all_capabilities)
    | inr other ↦
        confined-ArePlain
          (generate_seccomp_arg sc.seccomp_profile_path config.annotations config.name)
          (tweaked caps sc.capabilities)
          (λ arg made.
            generate_seccomp_arg-IsPlain sc.seccomp_profile_path config.annotations config.name
              made)
          (rw other at e)
  ]

  security_args-ArePlain :
      (config : ContainerConfig) (sc : SecurityContext) {args : List String}
      → security_args caps config sc ≡ ok args
      → ArePlain args
  unfolding security_args differs strip_prefix
  security_args-ArePlain config sc e =
      followed_by-ArePlain (confinement_args caps config sc) _
        (λ xs made. confinement_args-ArePlain config sc made)
        (λ ys made.
          followed_by-ArePlain (user_args sc.run_as_user sc.run_as_username) (ok _)
            (λ xs user. user_args-ArePlain sc.run_as_user sc.run_as_username user)
            (λ zs rest. subst ArePlain (ok-injective rest) (
              All-append IsPlain (groups_args sc.supplemental_groups) _
                (groups_args-ArePlain sc.supplemental_groups)
                (only_if-ArePlain sc.readonly_rootfs "--readonly-rootfs=true" (refl, refl, refl))))
            made)
        e

  pub linux_args-ArePlain :
      (config : ContainerConfig) (linux : Option LinuxContainerConfig) {args : List String}
      → linux_args caps config linux ≡ ok args
      → ArePlain args
  unfolding linux_args
  linux_args-ArePlain config none e = subst ArePlain (ok-injective e) tt
  linux_args-ArePlain config (some linux) e =
      followed_by-ArePlain (ok (resources_of linux.resources)) _
        (λ xs made. subst ArePlain (ok-injective made) (resources linux.resources))
        (λ ys made. context linux.security_context made) e
    where
      resources : (r : Option LinuxResources) → ArePlain (resources_of r)
      resources none = tt
      resources (some r) = resource_args-ArePlain r

      context :
          (sc : Option SecurityContext) {ys : List String}
          → context_of caps config sc ≡ ok ys
          → ArePlain ys
      context none made = subst ArePlain (ok-injective made) tt
      context (some sc) made = security_args-ArePlain config sc made

pub volumes-ArePlain :
    (mounts : List Mount) (args : List String) → All₂ IsVolumeOf mounts args → ArePlain args
unfolding mnt_volume differs strip_prefix
volumes-ArePlain [] [] h = tt
volumes-ArePlain (mnt ∷ mounts) (a ∷ args) ((name, made), h) = (
  subst IsPlain (sym made) (IsPlain-append "--mnt-volume=name=" _ refl refl refl),
  volumes-ArePlain mounts args h,
)
volumes-ArePlain [] (a ∷ args) h = absurd h
volumes-ArePlain (mnt ∷ mounts) [] h = absurd h

pub working_dir_args-ArePlain : (dir : String) → ArePlain (working_dir_args dir)
unfolding differs strip_prefix
working_dir_args-ArePlain dir =
    only_if-ArePlain (not (dir == "")) _ (IsPlain-append "--working-dir=" dir refl refl refl)

pub exec_arg-ArePlain : (command : List String) → ArePlain (exec_arg command)
unfolding differs strip_prefix
exec_arg-ArePlain [] = tt
exec_arg-ArePlain (c ∷ command) = (IsPlain-append "--exec=" c refl refl refl, tt)

-- The arguments of the app begin with `--`.
pub options_of-exec_args :
    (command args : List String) → options_of (exec_args command args) ≡ exec_arg command
unfolding exec_args options_of strip_prefix
options_of-exec_args command args =
    options_of-append (exec_arg command) (delimited (rest_of command ++ args))
      (IsPlain-IsOption (exec_arg command) (exec_arg-ArePlain command))
    ∙ ap (λ l. exec_arg command ++ l) (none_of (rest_of command ++ args))
    ∙ append-nil (exec_arg command)
  where
    none_of : (l : List String) → options_of (delimited l) ≡ []
    none_of [] = refl
    none_of (a ∷ l) = refl
