-- ===== src/Runtime/AppAdd/RoundTrip.antt =====
-- From the command that adds an app to the status that is reported of it.
use mathlib.Core.Path.{subst}
use rktlet.Base.{
  ◌≡◌, refl, sym, ap, ◌∙◌, ◌≤◌, String, false, Option, none, some, List, [], ◌∷◌, ◌==◌, text_eq,
  if◌then◌else◌, Result, ok, ok-injective, Bool-cases, arith, inl, inr,
}
use rktlet.Base.Dict.{Dict, lookup, get}
use rktlet.Host.{Host}
use rktlet.Host.Laws.{and_then-eq-ok}
use rktlet.Runtime.Annotations.{anno_image_name, get_image_name, get_kubernetes_labels}
use rktlet.Runtime.Annotations.Laws.{is_reserved, lookup-get_kubernetes_annotations}
use rktlet.Runtime.AppAdd.{generate_app_add_command, command_of, linux_args, mount_args, image_of}
use rktlet.Runtime.AppAdd.Plain.{linux_args-ArePlain, volumes-ArePlain}
use rktlet.Runtime.AppAdd.Shape.{
  name_of, mount_args-ok, generate_app_add_command-name, mounts_of, behind_four,
}
use rktlet.Runtime.AppAdd.Types.{CapsLib, ContainerConfig}
use rktlet.Runtime.AppName.{build_app_name, parse_app_name, max_uint32}
use rktlet.Runtime.AppName.RoundTrip.{parse_app_name-build_app_name}
use rktlet.Runtime.Status.{to_container_status, container_status_of}
use rktlet.Runtime.Types.{ContainerStatus, RktApp}
use rktlet.Runtime.UserArgs.{annotations_of, labels_of, options_of}
use rktlet.Runtime.UserArgs.Laws.{pushed, lookup-pushed, lookup-other, IsMap, or_else}
use rktlet.Runtime.AppAdd.Options.{IsRead, command_of-IsRead}

-- What rkt reports of an app that was added by a command: its name, and the annotations and labels
-- among the options.
pub record IsReportOf (rest : List String) (app : RktApp) : Type 0 where
  pub name : name_of rest ≡ some app.name
  pub annotations : app.user_annotations ≡ annotations_of (options_of rest) []
  pub labels : app.user_labels ≡ labels_of (options_of rest) []

-- The status says what the request said.
pub record Shows (sanitize : String → Result String String) (config : ContainerConfig)
    (status : ContainerStatus) : Type 0 where
  pub attempt : status.metadata.attempt ≡ config.attempt
  pub name : sanitize config.name ≡ ok status.metadata.name
  pub image : config.image ≡ some status.image
  pub labels : (key : String) → lookup key status.labels ≡ lookup key config.labels
  pub annotations :
      (key : String)
      → lookup key status.annotations
        ≡ (if is_reserved key then none else lookup key config.annotations)

or_else-none : (o : Option String) → or_else o none ≡ o
or_else-none none = refl
or_else-none (some v) = refl

lookup-pushed_alone : (key : String) (d : Dict) → IsMap d → lookup key (pushed d []) ≡ lookup key d
unfolding lookup
lookup-pushed_alone key d h = lookup-pushed key d [] h ∙ or_else-none (lookup key d)

-- The image's name is not shown among the annotations.
lookup-shown :
    (key image : String) (d : Dict)
    → IsMap d
    → (if is_reserved key then none else lookup key ((anno_image_name, image) ∷ pushed d []))
      ≡ (if is_reserved key then none else lookup key d)
lookup-shown key image d h = elim (Bool-cases (is_reserved key)) [
  | inl reserved ↦ rw reserved refl
  | inr other ↦
      let apart : anno_image_name == key ≡ false = ground arith in
      rw other
        (lookup-other key anno_image_name image (pushed d []) apart ∙ lookup-pushed_alone key d h)
]

some-injective : {a b : String} → some a ≡ some b → a ≡ b
some-injective e = ground arith

image_of-ok : (o : Option String) {image : String} → image_of o ≡ ok image → o ≡ some image
image_of-ok none e = absurd (ground arith)
image_of-ok (some i) e = ap some (ok-injective e)

get_image_name-first :
    (image : String) (m : Dict) → get_image_name ((anno_image_name, image) ∷ m) ≡ image
unfolding get_image_name get lookup
get_image_name-first image m = refl

module _ (h : Host) (sanitize : String → Result String String) (caps : CapsLib) where
  IsRead-Shows :
      (sandbox_id : String) (config : ContainerConfig) (image s_name : String) (rest : List String)
      (app : RktApp)
      → config.image ≡ some image
      → sanitize config.name ≡ ok s_name
      → parse_app_name app.name ≡ ok (config.attempt, s_name)
      → IsMap config.annotations
      → IsMap config.labels
      → IsRead h sanitize caps config image rest
      → IsReportOf rest app
      → (status : ContainerStatus) × (to_container_status sandbox_id app ≡ ok status)
        × Shows sanitize config status
  unfolding to_container_status get_kubernetes_labels
  IsRead-Shows sandbox_id config image s_name rest app given sane parsed hA hL read report =
      let annotations = report.annotations ∙ read.annotations in
      let labels = report.labels ∙ read.labels in
      (
        container_status_of sandbox_id app (config.attempt, s_name),
        rw parsed refl,
        record {
          attempt = refl;
          name = sane;
          image =
              given
              ∙ ap some (
                  sym (
                    ap get_image_name annotations
                    ∙ get_image_name-first image (pushed config.annotations [])));
          labels = λ key. ap (λ m. lookup key m) labels ∙ lookup-pushed_alone key config.labels hL;
          annotations = λ key.
              (lookup-get_kubernetes_annotations app.user_annotations key).0
              ∙ ap (λ m. if is_reserved key then none else lookup key m) annotations
              ∙ lookup-shown key image config.annotations hA;
        },
      )

  -- If rkt reports of an app the first name in the command that added it, and the annotations and
  -- labels in front of the app's own arguments, the later of two with one key, then the status of
  -- the container has the attempt of the request, its name as SanitizeACName made it, its image,
  -- its labels, and its annotations but those with a reserved key; the attempt must fit into 32
  -- bits, and the keys of the labels and annotations, which differ, must hold no "=".
  pub container_roundtrip :
      (sandbox_id : String) (config : ContainerConfig) (image_id : String) (s t : h.State)
      {rest : List String} (app : RktApp)
      → generate_app_add_command h sanitize caps sandbox_id config image_id s
        ≡ (ok ("app" ∷ "add" ∷ sandbox_id ∷ image_id ∷ rest), t)
      → config.attempt ≤ max_uint32
      → IsMap config.annotations
      → IsMap config.labels
      → IsReportOf rest app
      → (status : ContainerStatus) × (to_container_status sandbox_id app ≡ ok status)
        × Shows sanitize config status
  unfolding generate_app_add_command
  container_roundtrip sandbox_id config image_id s t {rest} app e small hA hL report =
      let (image, u, given, named) = and_then-eq-ok (image_of config.image, s) _ e in
      let (app_name, v, built, more) =
        and_then-eq-ok (build_app_name sanitize config.attempt config.name, u) _ named in
      let (linux, w, fine, mounted) =
        and_then-eq-ok (linux_args caps config config.linux, v) _ more in
      let (volumes, x, mounts, last) = and_then-eq-ok (mount_args h config.mounts w) _ mounted in
      let same : behind_four
            (command_of h sanitize caps sandbox_id image_id image config app_name linux volumes)
          ≡ rest =
        ap behind_four (ok-injective (ap (λ q. q.0) last)) in
      let (s_name, sane, parsed) =
        parse_app_name-build_app_name sanitize config.attempt config.name small
          (ap (λ q. q.0) built) in
      let called : app.name ≡ app_name = some-injective (
        sym report.name
        ∙ generate_app_add_command-name h sanitize caps sandbox_id config image_id s t e
            (ap (λ q. q.0) built)) in
      let read =
        command_of-IsRead h sanitize caps sandbox_id image_id image config app_name linux volumes hA
          hL (linux_args-ArePlain caps config config.linux (ap (λ q. q.0) fine))
          (volumes-ArePlain (mounts_of config.mounts) volumes
            (mount_args-ok h config.mounts w x mounts)) in
      IsRead-Shows sandbox_id config image s_name rest app
        (image_of-ok config.image (ap (λ q. q.0) given)) sane (ap parse_app_name called ∙ parsed) hA
        hL (subst (IsRead h sanitize caps config image) same read) report
