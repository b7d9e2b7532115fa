-- ===== src/Runtime/Annotations/Laws.antt =====
-- The reserved annotations are hidden and all others kept, and the metadata of a sandbox is read
-- back from the annotations that hold it.
use rktlet.Base.{
  ◌≡◌, refl, ◌∙◌, ◌≤◌, String, Bool, none, some, List, [], ◌∷◌, ◌==◌, text_eq, if◌then◌else◌, any,
  ok, arith,
}
use rktlet.Base.Decimal.{decimal, parse_uint-decimal}
use rktlet.Base.Dict.{Dict, lookup, get, delete, lookup-delete}
use rktlet.Runtime.AppName.{max_uint32}
use rktlet.Runtime.Types.{PodSandboxMetadata}
use rktlet.Runtime.Annotations.{
  anno_pod_uid, anno_pod_name, anno_pod_namespace, anno_pod_attempt, reserved_anno_keys, delete_all,
  get_kubernetes_annotations, get_kubernetes_metadata,
}

abbrev pub is_reserved : String → Bool
is_reserved key = any (λ k. k == key) reserved_anno_keys

lookup-delete_all :
    (keys : List String) (j : String) (m : Dict)
    → lookup j (delete_all keys m) ≡ (if any (λ k. k == j) keys then none else lookup j m)
unfolding delete_all
lookup-delete_all [] j m = refl
lookup-delete_all (k ∷ keys) j m =
    lookup-delete_all keys j (delete k m) ∙ rw (lookup-delete k j m) (ground arith)

-- No reserved key is among the annotations that are shown, and every other key has the value that
-- it had. The map that was passed in has lost the reserved keys too.
pub lookup-get_kubernetes_annotations :
    (annotations : Dict) (key : String)
    → (lookup key (get_kubernetes_annotations annotations).0
        ≡ (if is_reserved key then none else lookup key annotations))
      × ((get_kubernetes_annotations annotations).1 ≡ (get_kubernetes_annotations annotations).0)
unfolding get_kubernetes_annotations delete_all
lookup-get_kubernetes_annotations [] key = (lookup-delete_all reserved_anno_keys key [], refl)
lookup-get_kubernetes_annotations (a ∷ m) key =
    (lookup-delete_all reserved_anno_keys key (a ∷ m), refl)

-- The annotations hold the metadata of a sandbox.
pub record Holds (annotations : Dict) (metadata : PodSandboxMetadata) : Type 0 where
  pub uid : lookup anno_pod_uid annotations ≡ some metadata.uid
  pub name : lookup anno_pod_name annotations ≡ some metadata.name
  pub namespace : lookup anno_pod_namespace annotations ≡ some metadata.namespace
  pub attempt : lookup anno_pod_attempt annotations ≡ some (decimal metadata.attempt)

get-of_lookup : (key : String) (m : Dict) {v : String} → lookup key m ≡ some v → get key m ≡ v
unfolding get
get-of_lookup key m e = rw (e, get)

-- The metadata of a sandbox, whose attempt is a uint32, is read back from annotations that hold it.
pub get_kubernetes_metadata-of_Holds :
    (annotations : Dict) (metadata : PodSandboxMetadata)
    → metadata.attempt ≤ max_uint32
    → Holds annotations metadata
    → get_kubernetes_metadata annotations ≡ ok metadata
unfolding get_kubernetes_metadata
get_kubernetes_metadata-of_Holds annotations metadata h k =
    rw
      (
        get-of_lookup anno_pod_attempt annotations k.attempt,
        parse_uint-decimal max_uint32 metadata.attempt h,
        get-of_lookup anno_pod_uid annotations k.uid,
        get-of_lookup anno_pod_name annotations k.name,
        get-of_lookup anno_pod_namespace annotations k.namespace,
      )
      refl
