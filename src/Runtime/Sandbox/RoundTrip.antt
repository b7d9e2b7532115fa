-- ===== src/Runtime/Sandbox/RoundTrip.antt =====
-- From the arguments of the command that runs a sandbox back to the metadata in them.
use mathlib.Core.List.{map-append}
use rktlet.Base.{
  ◌≡◌, refl, sym, ap, ◌∙◌, ◌≤◌, String, ◌<>◌, true, false, none, some, List, [], ◌∷◌, ◌++◌, map,
  All, ◌==◌, text_eq, ok, ok-injective, arith,
}
use rktlet.Base.Chars.{strip_prefix, cut, Lacks}
use rktlet.Base.Chars.Laws.{cut-eq-none, differs, strip_prefix-differs}
use rktlet.Base.Decimal.{decimal}
use rktlet.Base.Dict.{Dict, lookup, entries}
use rktlet.Host.{Host}
use rktlet.Host.Laws.{and_then-eq-ok}
use rktlet.Runtime.Annotations.{
  anno_pod_uid, anno_pod_name, anno_pod_namespace, anno_pod_attempt, get_kubernetes_metadata,
  get_kubernetes_labels, is_kubernetes_pod,
}
use rktlet.Runtime.Annotations.Laws.{
  Holds, get_kubernetes_metadata-of_Holds, is_reserved, lookup-get_kubernetes_annotations,
}
use rktlet.Runtime.AppName.{max_uint32}
use rktlet.Runtime.Sandbox.{
  generate_app_sandbox_command, network_args, log_directory, sandbox_options, kept_annotations,
  reserved_annotations,
}
use rktlet.Runtime.Sandbox.Types.{PodSandboxConfig}
use rktlet.Runtime.Status.{to_pod_sandbox_status, pod_sandbox_status_of}
use rktlet.Runtime.Types.{PodSandboxMetadata, PodSandboxStatus, RktPod}
use rktlet.Runtime.UserArgs.{noted, annotations_of, labels_of}
use rktlet.Runtime.UserArgs.Laws.{
  pairs_of-append, pairs_of-none, pair_of-argument, pairs_of-entries, pushed, lookup-pushed,
  lookup-other, IsMap, or_else,
}
use rktlet.Runtime.UserArgs.Plain.{All-entries}

label_args-free :
    (labels : Dict)
    → All
        (λ y. strip_prefix "--user-annotation=" y ≡ none)
        (map (λ l. "--user-label=" <> l) (entries labels))
unfolding differs
label_args-free labels =
    All-entries _ "--user-label="
      (λ s. strip_prefix-differs "--user-annotation=" "--user-label=" s refl) labels

uid_clean : Lacks b'=' anno_pod_uid
unfolding cut
uid_clean = cut-eq-none b'=' anno_pod_uid refl

name_clean : Lacks b'=' anno_pod_name
unfolding cut
name_clean = cut-eq-none b'=' anno_pod_name refl

namespace_clean : Lacks b'=' anno_pod_namespace
unfolding cut
namespace_clean = cut-eq-none b'=' anno_pod_namespace refl

attempt_clean : Lacks b'=' anno_pod_attempt
unfolding cut
attempt_clean = cut-eq-none b'=' anno_pod_attempt refl

abbrev anno_prefix : String
anno_prefix = "--user-annotation="

-- The reserved annotations, in front of others.
abbrev reserved : PodSandboxMetadata → Dict → Dict
reserved metadata m =
    (anno_pod_attempt, decimal metadata.attempt)
    ∷ (anno_pod_namespace, metadata.namespace)
    ∷ (anno_pod_name, metadata.name)
    ∷ (anno_pod_uid, metadata.uid)
    ∷ m

annotations_of-reserved :
    (metadata : PodSandboxMetadata) (m : Dict)
    → annotations_of (map (λ a. "--user-annotation=" <> a) (reserved_annotations metadata)) m
      ≡ reserved metadata m
unfolding reserved_annotations
annotations_of-reserved metadata m i =
    noted (pair_of-argument anno_prefix anno_pod_attempt (decimal metadata.attempt) attempt_clean i)
      (noted (pair_of-argument anno_prefix anno_pod_namespace metadata.namespace namespace_clean i)
        (noted (pair_of-argument anno_prefix anno_pod_name metadata.name name_clean i)
          (noted (pair_of-argument anno_prefix anno_pod_uid metadata.uid uid_clean i) m)))

reserved-Holds : (metadata : PodSandboxMetadata) (m : Dict) → Holds (reserved metadata m) metadata
unfolding lookup
reserved-Holds metadata m = record { uid = refl; name = refl; namespace = refl; attempt = refl }

-- The pairs that stand before the annotations of the request and the reserved ones, which are
-- found before them.
annotations_of-kept :
    (annotations : Dict) (metadata : PodSandboxMetadata) (front : List String) (labels : Dict)
    → annotations_of
        (front
          ++ kept_annotations annotations metadata
          ++ map (λ l. "--user-label=" <> l) (entries labels))
        []
      ≡ reserved metadata (
          annotations_of
            (map (λ a. "--user-annotation=" <> a) (entries annotations))
            (annotations_of front []))
annotations_of-kept annotations metadata front labels =
    pairs_of-append anno_prefix (front ++ kept_annotations annotations metadata) _ []
    ∙ pairs_of-none anno_prefix _ _ (label_args-free labels)
    ∙ pairs_of-append anno_prefix front (kept_annotations annotations metadata) []
    ∙ ap (λ l. annotations_of l (annotations_of front []))
        (map-append _ (entries annotations) (reserved_annotations metadata))
    ∙ pairs_of-append anno_prefix (map (λ a. "--user-annotation=" <> a) (entries annotations)) _
        (annotations_of front [])
    ∙ annotations_of-reserved metadata _

-- What rkt reports of a pod whose sandbox was run by a command: the annotations and the labels in
-- its arguments.
pub record IsReportOf (cmd : List String) (pod : RktPod) : Type 0 where
  pub annotations : pod.user_annotations ≡ annotations_of cmd []
  pub labels : pod.user_labels ≡ labels_of cmd []

-- The status says what the request said.
pub record Shows (config : PodSandboxConfig) (status : PodSandboxStatus) : Type 0 where
  pub metadata : status.metadata ≡ config.metadata
  pub labels :
      (key v : String) → lookup key config.labels ≡ some v → lookup key status.labels ≡ some v
  pub annotations :
      (key v : String)
      → is_reserved key ≡ false
      → lookup key config.annotations ≡ some v
      → lookup key status.annotations ≡ some v

-- A key that is not reserved is looked up behind the reserved annotations.
lookup-reserved :
    (metadata : PodSandboxMetadata) (key : String) (m : Dict)
    → is_reserved key ≡ false
    → lookup key (reserved metadata m) ≡ lookup key m
lookup-reserved metadata key m other =
    let attempt : anno_pod_attempt == key ≡ false = ground arith in
    let namespace : anno_pod_namespace == key ≡ false = ground arith in
    let name : anno_pod_name == key ≡ false = ground arith in
    let uid : anno_pod_uid == key ≡ false = ground arith in
    lookup-other key _ _ _ attempt
    ∙ lookup-other key _ _ _ namespace
    ∙ lookup-other key _ _ _ name
    ∙ lookup-other key _ _ _ uid

-- What was pushed last is found.
lookup-pushed_found :
    (key v : String) (d m : Dict)
    → IsMap d
    → lookup key d ≡ some v
    → lookup key (pushed d m) ≡ some v
lookup-pushed_found key v d m h found =
    lookup-pushed key d m h ∙ ap (λ o. or_else o (lookup key m)) found

module _ (config : PodSandboxConfig) (pod : RktPod) where
  reserved-Shows :
      (m : Dict)
      → config.metadata.attempt ≤ max_uint32
      → IsMap config.annotations
      → pod.user_annotations ≡ reserved config.metadata (pushed config.annotations m)
      → ((key v : String) → lookup key config.labels ≡ some v → lookup key pod.user_labels ≡ some v)
      → (status : PodSandboxStatus) × (to_pod_sandbox_status pod ≡ ok status)
        × (is_kubernetes_pod pod ≡ true)
        × Shows config status
  unfolding to_pod_sandbox_status get_kubernetes_labels is_kubernetes_pod
  reserved-Shows m small hA annotations labels =
      let holds = reserved-Holds config.metadata (pushed config.annotations m) in
      let read : get_kubernetes_metadata pod.user_annotations ≡ ok config.metadata =
        ap get_kubernetes_metadata annotations
        ∙ get_kubernetes_metadata-of_Holds (reserved config.metadata (pushed config.annotations m))
            config.metadata small holds in
      let uid : lookup anno_pod_uid pod.user_annotations ≡ some config.metadata.uid =
        ap (λ l. lookup anno_pod_uid l) annotations ∙ holds.uid in
      (
        pod_sandbox_status_of pod config.metadata,
        rw read refl,
        rw (uid, is_kubernetes_pod) refl,
        record {
          metadata = refl;
          labels = labels;
          annotations = λ key v other found.
              (lookup-get_kubernetes_annotations pod.user_annotations key).0
              ∙ rw other (
                  ap (λ l. lookup key l) annotations
                  ∙ lookup-reserved config.metadata key (pushed config.annotations m) other
                  ∙ lookup-pushed_found key v config.annotations m hA found);
        },
      )

-- If rkt reports of a pod the annotations and the labels in the arguments of the command that ran
-- its sandbox, the later of two with one key, then the pod counts as one of kubernetes, and the
-- status of the sandbox has the metadata of the request, each of its labels, and each of its
-- annotations whose key is not reserved; the attempt must fit into 32 bits, and the keys of the
-- labels and annotations, which differ, must hold no "=".
pub sandbox_roundtrip :
    (h : Host) (config : PodSandboxConfig) (uuidfile stage1_name network_plugin_name : String)
    (s t : h.State) {cmd : List String} (pod : RktPod)
    → generate_app_sandbox_command h config uuidfile stage1_name network_plugin_name s ≡ (ok cmd, t)
    → config.metadata.attempt ≤ max_uint32
    → IsMap config.annotations
    → IsMap config.labels
    → IsReportOf cmd pod
    → (status : PodSandboxStatus) × (to_pod_sandbox_status pod ≡ ok status)
      × (is_kubernetes_pod pod ≡ true)
      × Shows config status
unfolding generate_app_sandbox_command
sandbox_roundtrip h config uuidfile stage1_name network_plugin_name s t pod e small hA hL report =
    let (directory, u, _, e1) = and_then-eq-ok (log_directory h config s) _ e in
    let (network, v, set_up, last) =
      and_then-eq-ok (network_args h config network_plugin_name u) _ e1 in
    let whole = ok-injective (ap (λ q. q.0) last) in
    let front = sandbox_options config uuidfile stage1_name directory ++ network in
    let before = front ++ kept_annotations config.annotations config.metadata in
    reserved-Shows config pod (annotations_of front []) small hA
      (report.annotations
        ∙ ap (λ c. annotations_of c []) (sym whole)
        ∙ annotations_of-kept config.annotations config.metadata front config.labels
        ∙ ap (reserved config.metadata)
            (pairs_of-entries anno_prefix config.annotations (annotations_of front []) hA))
      (λ key w found.
        ap (λ l. lookup key l)
          (report.labels
            ∙ ap (λ c. labels_of c []) (sym whole)
            ∙ pairs_of-append _ before _ []
            ∙ pairs_of-entries _ config.labels (labels_of before []) hL)
        ∙ lookup-pushed_found key w config.labels _ hL found)

-- The metadata alone are read back whatever the keys of the annotations are.
metadata_roundtrip :
    (h : Host) (config : PodSandboxConfig) (uuidfile stage1_name network_plugin_name : String)
    (s t : h.State) {cmd : List String}
    → config.metadata.attempt ≤ max_uint32
    → generate_app_sandbox_command h config uuidfile stage1_name network_plugin_name s ≡ (ok cmd, t)
    → get_kubernetes_metadata (annotations_of cmd []) ≡ ok config.metadata
unfolding generate_app_sandbox_command
metadata_roundtrip h config uuidfile stage1_name network_plugin_name s t small e =
    let (directory, u, _, e1) = and_then-eq-ok (log_directory h config s) _ e in
    let (network, v, set_up, last) =
      and_then-eq-ok (network_args h config network_plugin_name u) _ e1 in
    let front = sandbox_options config uuidfile stage1_name directory ++ network in
    ap (λ c. get_kubernetes_metadata (annotations_of c []))
      (sym (ok-injective (ap (λ q. q.0) last)))
    ∙ ap get_kubernetes_metadata
        (annotations_of-kept config.annotations config.metadata front config.labels)
    ∙ get_kubernetes_metadata-of_Holds (reserved config.metadata _) config.metadata small
        (reserved-Holds config.metadata _)
