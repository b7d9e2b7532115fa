-- ===== src/Runtime/Filter/Laws.antt =====
-- What the filters let through, and that the order in which Go visits a selector is of no account.
use mathlib.Core.List.{Perm, Permᴰ}
use mathlib.Core.List.Permᴰ.{nil, cons, swap, trans}
use mathlib.Core.Logic.{∥∥₁_elim}
use mathlib.Core.Bool.{Bool-set}
use rktlet.Base.{
  ◌≡◌, refl, ◌∙◌, ◌⊎◌, inl, inr, ◌↔◌, String, true, false, Option, none, some, [], ◌∷◌, ◌==◌,
  text_eq, All, arith, eq_iff, Option-cases,
}
use rktlet.Base.Dict.{Dict, lookup}
use rktlet.Runtime.Types.{
  Container, ContainerFilter, PodSandboxStatus, PodSandboxFilter, ContainerState, SandboxState,
  container_state_eq, sandbox_state_eq,
}
use rktlet.Runtime.Filter.{
  text_differs, state_differs, labels_pass, pass_filter, pod_sandbox_status_matches_filter,
}

-- Every label of the selector is among the labels, with its value.
abbrev pub HasLabels : Dict → Dict → Type 0
HasLabels selector labels = All (λ (key, value). lookup key labels ≡ some value) selector

labels_pass_iff :
    (selector labels : Dict) → (labels_pass selector labels ≡ true) ↔ HasLabels selector labels
unfolding labels_pass
labels_pass_iff [] labels = ground arith
labels_pass_iff ((key, value) ∷ selector) labels = elim (Option-cases (lookup key labels)) [
  | inl missing ↦ ground arith
  | inr (v, found) ↦ rw found (ground (arith, labels_pass_iff selector labels, eq_iff value v))
]

container_state_iff : (a b : ContainerState) → ((a == b) ≡ true) ↔ (a ≡ b)
container_state_iff a b = ground arith

sandbox_state_iff : (a b : SandboxState) → ((a == b) ≡ true) ↔ (a ≡ b)
sandbox_state_iff a b = ground arith

text_differs_iff :
    (want have : String) → (text_differs want have ≡ false) ↔ ((want ≡ "") ⊎ (want ≡ have))
text_differs_iff want have = ground (arith, eq_iff want "", eq_iff want have)

container_state_differs_iff :
    (want : Option ContainerState) (have : ContainerState)
    → (state_differs want have ≡ false) ↔ ((want ≡ none) ⊎ (want ≡ some have))
container_state_differs_iff none have = ground arith
container_state_differs_iff (some want) have = ground (arith, container_state_iff want have)

sandbox_state_differs_iff :
    (want : Option SandboxState) (have : SandboxState)
    → (state_differs want have ≡ false) ↔ ((want ≡ none) ⊎ (want ≡ some have))
sandbox_state_differs_iff none have = ground arith
sandbox_state_differs_iff (some want) have = ground (arith, sandbox_state_iff want have)

-- What a filter asks of a container: each field that is set agrees.
pub record Passes (container : Container) (filter : ContainerFilter) : Type 0 where
  pub same_id : (filter.id ≡ "") ⊎ (filter.id ≡ container.id)
  pub same_state : (filter.state ≡ none) ⊎ (filter.state ≡ some container.state)
  pub same_pod : (filter.pod_sandbox_id ≡ "") ⊎ (filter.pod_sandbox_id ≡ container.pod_sandbox_id)
  pub has_labels : HasLabels filter.label_selector container.labels

-- A container passes a filter exactly if it agrees with each field that the filter sets and has
-- every label of the selector.
pub pass_filter_iff :
    (container : Container) (filter : ContainerFilter)
    → (pass_filter container (some filter) ≡ true) ↔ Passes container filter
unfolding pass_filter
pass_filter_iff container filter = (
  λ e. record {
    same_id = (text_differs_iff filter.id container.id).0 (ground arith);
    same_state = (container_state_differs_iff filter.state container.state).0 (ground arith);
    same_pod = (text_differs_iff filter.pod_sandbox_id container.pod_sandbox_id).0 (ground arith);
    has_labels = (labels_pass_iff filter.label_selector container.labels).0 (ground arith);
  },
  λ p.
      rw
        (
          (text_differs_iff filter.id container.id).1 p.same_id,
          (container_state_differs_iff filter.state container.state).1 p.same_state,
          (text_differs_iff filter.pod_sandbox_id container.pod_sandbox_id).1 p.same_pod,
          (labels_pass_iff filter.label_selector container.labels).1 p.has_labels,
        )
        refl,
)

-- What a filter asks of a sandbox.
pub record SandboxPasses (sbx : PodSandboxStatus) (filter : PodSandboxFilter) : Type 0 where
  pub same_id : (filter.id ≡ "") ⊎ (filter.id ≡ sbx.id)
  pub same_state : (filter.state ≡ none) ⊎ (filter.state ≡ some sbx.state)
  pub has_labels : HasLabels filter.label_selector sbx.labels

-- A sandbox passes a filter exactly if it agrees with each field that the filter sets and has
-- every label of the selector.
pod_sandbox_status_matches_filter_iff :
    (sbx : PodSandboxStatus) (filter : PodSandboxFilter)
    → (pod_sandbox_status_matches_filter sbx (some filter) ≡ true) ↔ SandboxPasses sbx filter
unfolding pod_sandbox_status_matches_filter
pod_sandbox_status_matches_filter_iff sbx filter = (
  λ e. record {
    same_id = (text_differs_iff filter.id sbx.id).0 (ground arith);
    same_state = (sandbox_state_differs_iff filter.state sbx.state).0 (ground arith);
    has_labels = (labels_pass_iff filter.label_selector sbx.labels).0 (ground arith);
  },
  λ p.
      rw
        (
          (text_differs_iff filter.id sbx.id).1 p.same_id,
          (sandbox_state_differs_iff filter.state sbx.state).1 p.same_state,
          (labels_pass_iff filter.label_selector sbx.labels).1 p.has_labels,
        )
        refl,
)

labels_pass-permᴰ :
    (labels : Dict) {s t : Dict} → Permᴰ s t → labels_pass s labels ≡ labels_pass t labels
unfolding labels_pass
labels_pass-permᴰ labels nil = refl
labels_pass-permᴰ labels (cons {a} {b} {l₁} {l₂} e p) =
    rw e (ground (arith, labels_pass-permᴰ labels p))
labels_pass-permᴰ labels (swap {a} {b} {a'} {b'} {l} e e') = rw (e, e') (ground arith)
labels_pass-permᴰ labels (trans p q) = labels_pass-permᴰ labels p ∙ labels_pass-permᴰ labels q

labels_pass-perm : (labels s t : Dict) → Perm s t → labels_pass s labels ≡ labels_pass t labels
labels_pass-perm labels s t p = ∥∥₁_elim p (Bool-set _ _) (labels_pass-permᴰ labels)

-- The order in which Go visits the label selector does not change what a container filter says.
pub pass_filter-perm :
    (container : Container) (filter : ContainerFilter) (selector : Dict)
    → Perm filter.label_selector selector
    → pass_filter container (some filter)
      ≡ pass_filter container (some (record filter { label_selector = selector }))
unfolding pass_filter
pass_filter-perm container filter selector p = rw (labels_pass-perm container.labels _ _ p) refl

-- Nor what a sandbox filter says.
pub pod_sandbox_status_matches_filter-perm :
    (sbx : PodSandboxStatus) (filter : PodSandboxFilter) (selector : Dict)
    → Perm filter.label_selector selector
    → pod_sandbox_status_matches_filter sbx (some filter)
      ≡ pod_sandbox_status_matches_filter sbx (some (record filter { label_selector = selector }))
unfolding pod_sandbox_status_matches_filter
pod_sandbox_status_matches_filter-perm sbx filter selector p =
    rw (labels_pass-perm sbx.labels _ _ p) refl
