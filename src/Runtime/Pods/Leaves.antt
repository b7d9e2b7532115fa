-- ===== src/Runtime/Pods/Leaves.antt =====
-- Stopping, removing and listing leave the pods of a rkt there, but the one that is removed.
use mathlib.Core.Path.{subst}
use rktlet.Base.{
  ◌≡◌, refl, sym, ◌∙◌, inl, inr, String, Bool, true, false, ◌<>◌, Option, some, List, [], ◌∷◌,
  text_eq, Has, Result, ok, err, Bool-cases, not, ◌&&◌,
}
use rktlet.Host.{Host}
use rktlet.Cli.{CliOps}
use rktlet.Cli.StopErrors.{rkt_stop_is_already_stopped_error, rkt_stop_is_not_exist_error}
use rktlet.Cli.Systemd.{InitOps}
use rktlet.Runtime.Containers.{Decoders}
use rktlet.Runtime.Pods.{
  pod_sandbox_status, stop_pod, stop_pod_sandbox, ignore_stopped, remove_pod_sandbox, removed_with,
  show_bool, list_pod_sandbox,
}
use rktlet.Runtime.Pods.Rkt.{IsPodRkt, Stay-refl, IsSamePod-trans}
use rktlet.Runtime.Pods.Started.{pod_sandbox_status-Stay}
use rktlet.Runtime.Types.{PodSandboxFilter}
use rktlet.Runtime.Pods.Keeps.{KeepsPods, StayBut, Kept, and_then-Kept}

module _ (h : Host) (cli : CliOps h) (decode : Decoders) (init : InitOps h)
    (rkt : IsPodRkt h cli decode init) (keeps : KeepsPods h cli decode init rkt) where
  ignore_stopped-Kept :
      (s : h.State) (p : Result String (List String) × h.State)
      → Kept h cli decode init rkt keeps s p.1
      → Kept h cli decode init rkt keeps s (ignore_stopped h cli decode p).1
  ignore_stopped-Kept s (ok output, t) k = k
  ignore_stopped-Kept s (err e, t) k =
      elim (Bool-cases (
        not (rkt_stop_is_already_stopped_error (some e))
        && not (rkt_stop_is_not_exist_error (some e)))) [
          | inl failed ↦ rw failed k
          | inr ignored ↦ rw ignored k
        ]

  stop_pod-Kept :
      (id : String) (force : Bool) (s : h.State)
      → Kept h cli decode init rkt keeps s (stop_pod h cli decode id force s).1
  unfolding stop_pod
  stop_pod-Kept id force s =
      let args = ("--force=" <> show_bool force) ∷ id ∷ [] in
      and_then-Kept h cli decode init rkt keeps s
        (ignore_stopped h cli decode (cli.run_command "stop" args s)) _
        (ignore_stopped-Kept s _ (keeps.stop args s))
        (λ stopped u.
          and_then-Kept h cli decode init rkt keeps u (pod_sandbox_status h cli decode id u) _
            (pod_sandbox_status-Stay h cli decode init rkt id u)
            (λ status v. Stay-refl (rkt.pods v)))

  pub stop_pod_sandbox-Kept :
      (id : String) (s : h.State)
      → Kept h cli decode init rkt keeps s (stop_pod_sandbox h cli decode id s).1
  unfolding stop_pod_sandbox
  stop_pod_sandbox-Kept id s = stop_pod-Kept id false s

  removed_with-state :
      (p : Result String (List String) × h.State) → (removed_with h cli decode p).1 ≡ p.1
  removed_with-state (ok output, t) = refl
  removed_with-state (err e, t) = refl

  -- RemovePodSandbox leaves all pods there but the one that it is called for.
  pub remove_pod_sandbox-Kept :
      (id : String) (s : h.State)
      → StayBut id (rkt.pods s) (rkt.pods (remove_pod_sandbox h cli decode id s).1)
  unfolding remove_pod_sandbox
  remove_pod_sandbox-Kept id s p has other =
      let t = (stop_pod h cli decode id true s).1 in
      let (q, has_q, same) = stop_pod-Kept id true s p has in
      let (r, has_r, again) = keeps.rm id t q has_q (λ e. other (sym same.uuid ∙ e)) in
      (
        r,
        subst (λ u. Has r (rkt.pods u))
            (sym (removed_with-state (cli.run_command "rm" (id ∷ []) t))) has_r,
        IsSamePod-trans same again,
      )

  -- ListPodSandbox leaves the pods there.
  pub list_pod_sandbox-Kept :
      (filter : Option PodSandboxFilter) (s : h.State)
      → Kept h cli decode init rkt keeps s (list_pod_sandbox h cli decode filter s).1
  unfolding list_pod_sandbox
  list_pod_sandbox-Kept filter s =
      let (text, t, ran, decoded, kept) = rkt.lists s in rw (ran, decoded) kept
