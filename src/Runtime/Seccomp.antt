-- ===== src/Runtime/Seccomp.antt =====
-- rktlet/runtime/helpers.go: the seccomp profile of a container.
pub mod Laws
use rktlet.Base.{
  String, ◌<>◌, Bool, Option, none, some, ◌||◌, ◌==◌, text_eq, if◌then◌else◌, Result, ok, err,
}
use rktlet.Base.Dict.{Dict, lookup}
use rktlet.Errors.{Error, seccomp_not_supported}

-- SeccompContainerAnnotationKeyPrefix and SeccompPodAnnotationKey of k8s.io/kubernetes/pkg/api
abbrev pub seccomp_container_key_prefix : String
seccomp_container_key_prefix = "container.seccomp.security.alpha.kubernetes.io/"

abbrev pub seccomp_pod_key : String
seccomp_pod_key = "seccomp.security.alpha.kubernetes.io/pod"

abbrev pub default_seccomp : String
default_seccomp = "--seccomp=mode=retain,@appc.io/all"

-- The argument for a profile that is known.
unfoldable pub seccomp_arg_of : String → Result Error String
seccomp_arg_of profile =
    if profile == "unconfined" || profile == ""
    then ok default_seccomp
    else if profile == "docker/default"
    then ok ""
    else err (seccomp_not_supported profile)

-- The annotation of the container, or else that of the pod.
unfoldable pub annotated_profile : Dict → String → Option String
annotated_profile annotations container_name =
    elim (lookup (seccomp_container_key_prefix <> container_name) annotations) [
      | some profile ↦ some profile
      | none ↦ lookup seccomp_pod_key annotations
    ]

unfoldable pub generate_seccomp_arg : String → Dict → String → Result Error String
generate_seccomp_arg seccomp_profile annotations container_name =
    if seccomp_profile == ""
    then (elim (annotated_profile annotations container_name) [
      | none ↦ ok default_seccomp
      | some profile ↦ seccomp_arg_of profile
    ])
    else seccomp_arg_of seccomp_profile
