-- ===== src/Runtime/Annotations.antt =====
-- rktlet/runtime/helpers.go: the annotations under which rktlet keeps what rkt does not know.
pub mod Laws
use rktlet.Base.{ℕ, String, Bool, true, false, Option, none, some, List, [], ◌∷◌, Result, ok, err}
use rktlet.Base.Decimal.{Parsed, value, syntax, range, parse_uint}
use rktlet.Base.Dict.{Dict, lookup, get, delete}
use rktlet.Errors.{Error, attempt_not_parsed}
use rktlet.Runtime.AppName.{max_uint32}
use rktlet.Runtime.Types.{PodSandboxMetadata, RktPod}

-- kubernetesReservedAnnoImageNameKey and the keys that follow it
abbrev pub anno_image_name : String
anno_image_name = "k8s.io/reserved/image-name"

abbrev pub anno_pod_uid : String
anno_pod_uid = "k8s.io/reserved/pod-uid"

abbrev pub anno_pod_name : String
anno_pod_name = "k8s.io/reserved/pod-name"

abbrev pub anno_pod_namespace : String
anno_pod_namespace = "k8s.io/reserved/pod-namespace"

abbrev pub anno_pod_attempt : String
anno_pod_attempt = "k8s.io/reserved/pod-attempt"

abbrev pub stage1_name_anno : String
stage1_name_anno = "rkt.alpha.kubernetes.io/stage1-name-override"

abbrev pub reserved_anno_keys : List String
reserved_anno_keys =
    anno_image_name ∷ anno_pod_uid ∷ anno_pod_name ∷ anno_pod_namespace ∷ anno_pod_attempt ∷ []

unfoldable pub get_kubernetes_labels : Dict → Dict
get_kubernetes_labels labels = labels

-- The loop that deletes the reserved keys.
unfoldable pub delete_all : List String → Dict → Dict
delete_all [] ret = ret
delete_all (key ∷ keys) ret = delete_all keys (delete key ret)

-- The map that is returned, and what the argument is afterwards: the two are one map, which the
-- loop changes.
unfoldable pub get_kubernetes_annotations : Dict → Dict × Dict
unfolding delete_all delete
get_kubernetes_annotations [] = ([], [])
get_kubernetes_annotations (a ∷ annotations) =
    let ret = delete_all reserved_anno_keys (a ∷ annotations) in (ret, ret)

unfoldable pub get_image_name : Dict → String
unfolding get
get_image_name annotations = get anno_image_name annotations

unfoldable pub is_kubernetes_pod : RktPod → Bool
unfolding lookup
is_kubernetes_pod pod = elim (lookup anno_pod_uid pod.user_annotations) [
  | none ↦ false
  | some v ↦ true
]

abbrev metadata_of : Dict → String → Parsed → Result Error PodSandboxMetadata
metadata_of annotations attempt_str (value attempt) = ok (record {
  uid = get anno_pod_uid annotations;
  name = get anno_pod_name annotations;
  namespace = get anno_pod_namespace annotations;
  attempt = attempt;
})
metadata_of annotations attempt_str syntax = err (attempt_not_parsed attempt_str)
metadata_of annotations attempt_str range = err (attempt_not_parsed attempt_str)

unfoldable pub get_kubernetes_metadata : Dict → Result Error PodSandboxMetadata
unfolding get parse_uint
get_kubernetes_metadata annotations =
    let attempt_str = get anno_pod_attempt annotations in
    metadata_of annotations attempt_str (parse_uint max_uint32 attempt_str)
