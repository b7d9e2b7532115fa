-- ===== src/Runtime/Filter.antt =====
-- rktlet/runtime/helpers.go: the filters of the two list calls.
pub mod Laws
use rktlet.Base.{
  String, Bool, true, false, not, ◌&&◌, ◌||◌, Option, none, some, [], ◌∷◌, ◌==◌, Eq, text_eq,
  if◌then◌else◌,
}
use rktlet.Base.Dict.{Dict, lookup}
use rktlet.Runtime.Types.{
  Container, ContainerFilter, PodSandboxStatus, PodSandboxFilter, container_state_eq,
  sandbox_state_eq,
}

-- `want != "" && want != have`
abbrev pub text_differs : String → String → Bool
text_differs want have = not (want == "") && not (want == have)

-- `want != nil && want.State != have`
abbrev pub state_differs : {S : Type 0} ⦃e : Eq S⦄ → Option S → S → Bool
state_differs none have = false
state_differs (some want) have = not (want == have)

-- The loop over the label selector in passFilter.
labels_pass : Dict → Dict → Bool
labels_pass [] labels = true
labels_pass ((key, value) ∷ selector) labels =
    let rest = labels_pass selector labels in
    elim (lookup key labels) [ none ↦ false | some v ↦ if not (value == v) then false else rest ]

unfoldable pub pass_filter : Container → Option ContainerFilter → Bool
unfolding labels_pass lookup
pass_filter container none = true
pass_filter container (some filter) =
    if text_differs filter.id container.id
    then false
    else if state_differs filter.state container.state
    then false
    else if text_differs filter.pod_sandbox_id container.pod_sandbox_id
    then false
    else labels_pass filter.label_selector container.labels

unfoldable pub pod_sandbox_status_matches_filter : PodSandboxStatus → Option PodSandboxFilter → Bool
unfolding labels_pass lookup
pod_sandbox_status_matches_filter sbx none = true
pod_sandbox_status_matches_filter sbx (some filter) =
    if text_differs filter.id sbx.id
    then false
    else if state_differs filter.state sbx.state
    then false
    else labels_pass filter.label_selector sbx.labels
