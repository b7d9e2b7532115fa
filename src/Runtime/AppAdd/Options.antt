-- ===== src/Runtime/AppAdd/Options.antt =====
-- What is read in the options of the command that adds an app: the annotations and the labels of the
-- request, whatever else it holds.
use mathlib.Core.List.{map-append}
use mathlib.Core.Path.{subst}
use rktlet.Base.{
  ◌≡◌, refl, sym, ap, ◌∙◌, String, ◌<>◌, none, List, [], ◌∷◌, ◌++◌, map, All, All-append, All-mono,
  text_eq, Result,
}
use rktlet.Base.Chars.{strip_prefix, cut, Lacks}
use rktlet.Base.Chars.Laws.{differs, strip_prefix-differs, cut-eq-none}
use rktlet.Base.Dict.{Dict, entries}
use rktlet.Host.{Host}
use rktlet.Runtime.Annotations.{anno_image_name}
use rktlet.Runtime.AppAdd.{
  command_of, annotation_args, working_dir_args, exec_args, exec_arg, log_path_of,
}
use rktlet.Runtime.AppAdd.Plain.{
  ArePlain, working_dir_args-ArePlain, exec_arg-ArePlain, options_of-exec_args,
}
use rktlet.Runtime.AppAdd.Shape.{behind_four}
use rktlet.Runtime.AppAdd.Types.{CapsLib, ContainerConfig}
use rktlet.Runtime.UserArgs.{noted, pairs_of, annotations_of, labels_of, options_of}
use rktlet.Runtime.UserArgs.Laws.{
  pairs_of-append, pairs_of-none, pairs_of-entries, pair_of-argument, pushed, IsMap,
}
use rktlet.Runtime.UserArgs.Plain.{
  IsPlain, IsOption, IsPlain-append, IsOption-append, IsPlain-IsOption, options_of-append,
  All-entries,
}

-- The arguments at the end hold no pair.
pairs_of-front :
    (prefix : String) (xs ys : List String) (m : Dict)
    → All (λ y. strip_prefix prefix y ≡ none) ys
    → pairs_of prefix (xs ++ ys) m ≡ pairs_of prefix xs m
pairs_of-front prefix xs ys m h = pairs_of-append prefix xs ys m ∙ pairs_of-none prefix ys _ h

abbrev Without : String → List String → Type 0
Without prefix = All (λ y. strip_prefix prefix y ≡ none)

-- The pairs of a part, with five parts behind it that hold none.
pairs_of-behind :
    (prefix : String) (u e x w v f : List String) (m : Dict)
    → Without prefix e
    → Without prefix x
    → Without prefix w
    → Without prefix v
    → Without prefix f
    → pairs_of prefix (u ++ e ++ x ++ w ++ v ++ f) m ≡ pairs_of prefix u m
pairs_of-behind prefix u e x w v f m he hx hw hv hf =
    pairs_of-front prefix (u ++ e ++ x ++ w ++ v) f m hf
    ∙ pairs_of-front prefix (u ++ e ++ x ++ w) v m hv
    ∙ pairs_of-front prefix (u ++ e ++ x) w m hw
    ∙ pairs_of-front prefix (u ++ e) x m hx
    ∙ pairs_of-front prefix u e m he

annotation-free : (xs : List String) → ArePlain xs → Without "--user-annotation=" xs
annotation-free xs h = All-mono (λ y p. p.0) xs h

label-free : (xs : List String) → ArePlain xs → Without "--user-label=" xs
label-free xs h = All-mono (λ y p. p.1) xs h

-- The arguments between the image and the annotations.
abbrev fixed : String → String → List String
fixed app_name log_path =
    ("--annotation=coreos.com/rkt/experiment/kubernetes-log-path=" <> log_path_of app_name log_path)
    ∷ ("--name=" <> app_name)
    ∷ "--stdin=stream"
    ∷ "--stdout=stream"
    ∷ "--stderr=stream"
    ∷ []

fixed-ArePlain : (app_name log_path : String) → ArePlain (fixed app_name log_path)
unfolding differs strip_prefix
fixed-ArePlain app_name log_path =
    let log =
      IsPlain-append "--annotation=coreos.com/rkt/experiment/kubernetes-log-path="
        (log_path_of app_name log_path) refl refl refl in
    let name = IsPlain-append "--name=" app_name refl refl refl in
    (log, (name, ((refl, refl, refl), ((refl, refl, refl), ((refl, refl, refl), tt)))))

abbrev label_args : Dict → List String
label_args labels = map (λ l. "--user-label=" <> l) (entries labels)

abbrev env_args : Dict → List String
env_args envs = map (λ e. "--environment=" <> e) (entries envs)

env_args-ArePlain : (envs : Dict) → ArePlain (env_args envs)
unfolding differs strip_prefix
env_args-ArePlain envs =
    All-entries IsPlain "--environment=" (λ s. IsPlain-append "--environment=" s refl refl refl)
      envs

label_args-annotation_free : (labels : Dict) → Without "--user-annotation=" (label_args labels)
unfolding differs
label_args-annotation_free labels =
    All-entries _ "--user-label="
      (λ s. strip_prefix-differs "--user-annotation=" "--user-label=" s refl) labels

image_clean : Lacks b'=' anno_image_name
unfolding cut
image_clean = cut-eq-none b'=' anno_image_name refl

-- The entries of the annotations, and that of the image behind them.
annotation_args-split :
    (annotations : Dict) (image : String)
    → annotation_args annotations image
      ≡ map (λ a. "--user-annotation=" <> a) (entries annotations)
        ++ ("--user-annotation=" <> (anno_image_name <> "=" <> image)) ∷ []
annotation_args-split annotations image = map-append _ (entries annotations) _

annotation_args-P :
    (P : String → Type 0) (annotations : Dict) (image : String)
    → ((s : String) → P ("--user-annotation=" <> s))
    → All P (annotation_args annotations image)
annotation_args-P P annotations image h =
    subst (All P) (sym (annotation_args-split annotations image)) (
      All-append P (map (λ a. "--user-annotation=" <> a) (entries annotations)) _
        (All-entries P "--user-annotation=" h annotations) (h _, tt))

annotation_args-label_free :
    (annotations : Dict) (image : String)
    → Without "--user-label=" (annotation_args annotations image)
unfolding differs
annotation_args-label_free annotations image =
    annotation_args-P _ annotations image
      (λ s. strip_prefix-differs "--user-label=" "--user-annotation=" s refl)

annotation_args-IsOption :
    (annotations : Dict) (image : String) → All IsOption (annotation_args annotations image)
unfolding strip_prefix
annotation_args-IsOption annotations image =
    annotation_args-P IsOption annotations image (λ s. IsOption-append "--user-annotation=" s refl)

label_args-IsOption : (labels : Dict) → All IsOption (label_args labels)
unfolding strip_prefix
label_args-IsOption labels =
    All-entries IsOption "--user-label=" (λ s. IsOption-append "--user-label=" s refl) labels

-- All of seven parts.
fronts-IsOption :
    (k a l e x w v : List String)
    → All IsOption k
    → All IsOption a
    → All IsOption l
    → All IsOption e
    → All IsOption x
    → All IsOption w
    → All IsOption v
    → All IsOption (k ++ a ++ l ++ e ++ x ++ w ++ v)
fronts-IsOption k a l e x w v hk ha hl he hx hw hv =
    All-append IsOption (k ++ a ++ l ++ e ++ x ++ w) v
      (All-append IsOption (k ++ a ++ l ++ e ++ x) w
        (All-append IsOption (k ++ a ++ l ++ e) x
          (All-append IsOption (k ++ a ++ l) e
            (All-append IsOption (k ++ a) l (All-append IsOption k a hk ha) hl) he)
          hx)
        hw)
      hv

annotations_of-annotation_args :
    (annotations : Dict) (image : String)
    → IsMap annotations
    → annotations_of (annotation_args annotations image) []
      ≡ (anno_image_name, image) ∷ pushed annotations []
annotations_of-annotation_args annotations image h =
    ap (λ l. annotations_of l []) (annotation_args-split annotations image)
    ∙ pairs_of-append _ (map (λ a. "--user-annotation=" <> a) (entries annotations)) _ []
    ∙ ap (annotations_of (("--user-annotation=" <> (anno_image_name <> "=" <> image)) ∷ []))
        (pairs_of-entries _ annotations [] h)
    ∙ ap (λ o. noted o (pushed annotations []))
        (pair_of-argument "--user-annotation=" anno_image_name image image_clean)

module _ (h : Host) (sanitize : String → Result String String) (caps : CapsLib) where
  -- What rkt reads in the options of a command that adds an app.
  pub record IsRead (config : ContainerConfig) (image : String) (rest : List String) : Type 0 where
    pub annotations :
        annotations_of (options_of rest) []
        ≡ (anno_image_name, image) ∷ pushed config.annotations []
    pub labels : labels_of (options_of rest) [] ≡ pushed config.labels []

  pub command_of-IsRead :
      (sandbox_id image_id image : String) (config : ContainerConfig) (app_name : String)
      (linux mounts : List String)
      → IsMap config.annotations
      → IsMap config.labels
      → ArePlain linux
      → ArePlain mounts
      → IsRead config image (
          behind_four
            (command_of h sanitize caps sandbox_id image_id image config app_name linux mounts))
  command_of-IsRead sandbox_id image_id image config app_name linux mounts hA hL hx hv =
      let k = fixed app_name config.log_path in
      let a = annotation_args config.annotations image in
      let l = label_args config.labels in
      let e = env_args config.envs in
      let w = working_dir_args config.working_dir in
      let f = exec_arg config.command in
      let front = k ++ a ++ l ++ e ++ linux ++ w ++ mounts in
      let hk = fixed-ArePlain app_name config.log_path in
      let he = env_args-ArePlain config.envs in
      let hw = working_dir_args-ArePlain config.working_dir in
      let hf = exec_arg-ArePlain config.command in
      let split : options_of (front ++ exec_args config.command config.args) ≡ front ++ f =
        options_of-append front (exec_args config.command config.args) (
          fronts-IsOption k a l e linux w mounts (IsPlain-IsOption k hk)
            (annotation_args-IsOption config.annotations image) (label_args-IsOption config.labels)
            (IsPlain-IsOption e he) (IsPlain-IsOption linux hx) (IsPlain-IsOption w hw)
            (IsPlain-IsOption mounts hv))
        ∙ ap (λ r. front ++ r) (options_of-exec_args config.command config.args) in
      record {
        annotations =
            ap (λ r. annotations_of r []) split
            ∙ pairs_of-behind _ (k ++ a ++ l) e linux w mounts f [] (annotation-free e he)
                (annotation-free linux hx) (annotation-free w hw) (annotation-free mounts hv)
                (annotation-free f hf)
            ∙ pairs_of-front _ (k ++ a) l [] (label_args-annotation_free config.labels)
            ∙ pairs_of-append _ k a []
            ∙ ap (annotations_of a) (pairs_of-none _ k [] (annotation-free k hk))
            ∙ annotations_of-annotation_args config.annotations image hA;
        labels =
            ap (λ r. labels_of r []) split
            ∙ pairs_of-behind _ (k ++ a ++ l) e linux w mounts f [] (label-free e he)
                (label-free linux hx) (label-free w hw) (label-free mounts hv) (label-free f hf)
            ∙ pairs_of-append _ (k ++ a) l []
            ∙ ap (labels_of l) (
                pairs_of-front _ k a [] (annotation_args-label_free config.annotations image)
                ∙ pairs_of-none _ k [] (label-free k hk))
            ∙ pairs_of-entries _ config.labels [] hL;
      }
