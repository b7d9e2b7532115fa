-- ===== src/Runtime/Pods/Listed.antt =====
-- From RunPodSandbox to ListPodSandbox of pod_sandbox.go.
use rktlet.Base.{
  ◌≡◌, refl, sym, ap, ◌∙◌, inl, inr, String, true, none, some, List, [], ◌∷◌, Has, Result-cases, ok,
  ok-injective, Bool-cases, arith,
}
use rktlet.Base.Dict.{lookup}
use rktlet.Host.{Host}
use rktlet.Cli.{CliOps}
use rktlet.Cli.Systemd.{InitOps}
use rktlet.Runtime.Annotations.{is_kubernetes_pod, get_kubernetes_metadata}
use rktlet.Runtime.Containers.{Decoders}
use rktlet.Runtime.Filter.{pod_sandbox_status_matches_filter}
use rktlet.Runtime.Pods.{list_sandboxes, list_pod_sandbox, to_pod_sandbox}
use rktlet.Runtime.Sandbox.RoundTrip.{sandbox_roundtrip}
use rktlet.Runtime.Sandbox.Types.{PodSandboxConfig}
use rktlet.Runtime.Status.{to_pod_sandbox_status}
use rktlet.Runtime.Types.{PodSandbox, PodSandboxStatus, RktPod}
use rktlet.Runtime.Pods.Rkt.{AreOurs, IsPodRkt}
use rktlet.Runtime.Pods.Started.{IsValid, HasRun, HasRun-Stay}

-- Without a filter the sandboxes of all of kubernetes' pods are listed.
list_sandboxes-Has :
    (pods : List RktPod)
    → AreOurs pods
    → (sandboxes : List PodSandbox) × (list_sandboxes none pods ≡ ok sandboxes)
      × ((p : RktPod) (status : PodSandboxStatus)
          → Has p pods
          → is_kubernetes_pod p ≡ true
          → to_pod_sandbox_status p ≡ ok status
          → Has (to_pod_sandbox status) sandboxes)
unfolding list_sandboxes pod_sandbox_status_matches_filter
list_sandboxes-Has [] ours = ([], refl, λ p status has. absurd has)
list_sandboxes-Has (q ∷ pods) ours =
    let (rest, listed, held) = list_sandboxes-Has pods (λ p has. ours p (inr has)) in
    elim (Bool-cases (is_kubernetes_pod q)) [
      | inr other ↦ (
        rest,
        rw other listed,
        λ p status has kubernetes converted. elim has [
          | inl here ↦ absurd (ground (arith, ap is_kubernetes_pod here))
          | inr later ↦ held p status later kubernetes converted
        ],
      )
      | inl ours_too ↦
          let (found, converted_q) = ours q (inl refl) ours_too in
          (
            to_pod_sandbox found ∷ rest,
            rw (ours_too, converted_q, listed) refl,
            λ p status has kubernetes converted. elim has [
              | inl here ↦ inl (
                  ap to_pod_sandbox
                    (ok-injective (sym converted_q ∙ ap to_pod_sandbox_status here ∙ converted)))
              | inr later ↦ inr (held p status later kubernetes converted)
            ],
          )
    ]

-- A sandbox of the ID is listed, with the metadata and the labels of the request.
abbrev pub IsListedAs : String → PodSandboxConfig → List PodSandbox → Type 0
IsListedAs id config sandboxes =
    (sandbox : PodSandbox) × Has sandbox sandboxes
    × (sandbox.id ≡ id)
    × (sandbox.metadata ≡ config.metadata)
    × ((key v : String) → lookup key config.labels ≡ some v → lookup key sandbox.labels ≡ some v)

module _ (h : Host) (cli : CliOps h) (decode : Decoders) (init : InitOps h)
    (rkt : IsPodRkt h cli decode init) where
  id-to_pod_sandbox_status :
      (p : RktPod) (status : PodSandboxStatus)
      → to_pod_sandbox_status p ≡ ok status
      → status.id ≡ p.uuid
  unfolding to_pod_sandbox_status
  id-to_pod_sandbox_status p status e =
      elim (Result-cases (get_kubernetes_metadata p.user_annotations)) [
        | inl (metadata, read) ↦ sym (ap (λ st. st.id) (ok-injective (rw read at e)))
        | inr (_, failed) ↦ absurd (ground arith)
      ]

  -- ListPodSandbox without a filter succeeds, and lists every sandbox that was run.
  pub list_pod_sandbox-IsListedAs :
      (s : h.State)
      → ((u : h.State) → AreOurs (rkt.pods u))
      → (sandboxes : List PodSandbox) × (t : h.State) × (list_pod_sandbox h cli decode none s
          ≡ (ok sandboxes, t))
        × ((id : String) (config : PodSandboxConfig)
            → IsValid config
            → HasRun h cli decode init rkt id config s
            → IsListedAs id config sandboxes)
  unfolding list_pod_sandbox
  list_pod_sandbox-IsListedAs s ours =
      let (text, w, ran, decoded, stay) = rkt.lists s in
      let (sandboxes, listed, held) = list_sandboxes-Has (rkt.pods w) (ours w) in
      (
        sandboxes,
        w,
        rw (ran, decoded, listed) refl,
        λ id config (small, hA, hL) run.
            let (q, has, uuid, (file, stage1_name, plugin, command, u, v, generated, report)) =
              HasRun-Stay h cli decode init rkt id config s w run (λ p has same. stay p has) in
            let (status, converted, kubernetes, shows) =
              sandbox_roundtrip h config file stage1_name plugin u v q generated small hA hL
                report in
            (
              to_pod_sandbox status,
              held q status has kubernetes converted,
              id-to_pod_sandbox_status q status converted ∙ uuid,
              shows.metadata,
              shows.labels,
            ),
      )
