-- ===== src/Runtime/Pods/Runs.antt =====
-- Runs of the calls of pod_sandbox.go, and the sandboxes that their client expects to be listed.
use mathlib.Core.Path.{subst}
use rktlet.Base.{
  ◌≡◌, ◌≢◌, sym, ◌∙◌, inl, inr, String, Option, none, List, [], ◌∷◌, All, All-mono, All-map₂, ◌==◌,
  text_eq, if◌then◌else◌, Result, ok, err, arith, Bool-cases, eq_iff,
}
use rktlet.Errors.{Error}
use rktlet.Host.{Host}
use rktlet.Cli.{CliOps}
use rktlet.Cli.Systemd.{InitOps}
use rktlet.Runtime.Containers.{Decoders}
use rktlet.Runtime.Pods.{
  run_pod_sandbox, stop_pod_sandbox, remove_pod_sandbox, pod_sandbox_status, list_pod_sandbox,
}
use rktlet.Runtime.Pods.Keeps.{KeepsPods, StayBut, run_pod_sandbox-Kept}
use rktlet.Runtime.Pods.Leaves.{
  stop_pod_sandbox-Kept, remove_pod_sandbox-Kept, list_pod_sandbox-Kept,
}
use rktlet.Runtime.Pods.Listed.{IsListedAs, list_pod_sandbox-IsListedAs}
use rktlet.Runtime.Pods.Rkt.{AreOurs, Stay, IsPodRkt}
use rktlet.Runtime.Pods.Started.{
  IsValid, HasRun, HasRun-Stay, run_pod_sandbox-pod, pod_sandbox_status-Stay,
}
use rktlet.Runtime.Sandbox.Types.{PodSandboxConfig}
use rktlet.Runtime.Types.{PodSandbox, PodSandboxStatus, PodSandboxFilter}

-- What the client learns of a call: the ID of a sandbox that was run, and what it had asked for;
-- the ID of one whose removal it asked for; or nothing.
pub data Event : Type 0 where
  ran : String → PodSandboxConfig → Event
  removing : String → Event
  looked : Event

abbrev pub Expected : Type 0
Expected = List (String × PodSandboxConfig)

abbrev pub without : String → Expected → Expected
without id [] = []
without id (e ∷ es) = let rest = without id es in if e.0 == id then rest else e ∷ rest

abbrev pub observe : Event → Expected → Expected
observe (ran id config) expected = (id, config) ∷ expected
observe (removing id) expected = without id expected
observe looked expected = expected

-- The sandboxes that were run and whose removal was not asked for since.
abbrev pub replay : List Event → Expected → Expected
replay [] expected = expected
replay (event ∷ events) expected = replay events (observe event expected)

All-without :
    {P Q : String × PodSandboxConfig → Type 0} (id : String) (es : Expected)
    → ((e : String × PodSandboxConfig) → P e → e.0 ≢ id → Q e)
    → All P es
    → All Q (without id es)
All-without id [] f h = tt
All-without id (e ∷ es) f (first, later) = elim (Bool-cases (e.0 == id)) [
  | inl same ↦ rw same (All-without id es f later)
  | inr other ↦
      rw other (f e first (λ same. ground (arith, eq_iff e.0 id)), All-without id es f later)
]

module _ (h : Host) (cli : CliOps h) (decode : Decoders) (init : InitOps h) where
  -- A call, whatever came of it.
  pub data Step (s t : h.State) : Event → Type 0 where
    run :
        (stage1_name network_plugin_name : String) (config : PodSandboxConfig) (id : String)
        → run_pod_sandbox h cli decode init stage1_name network_plugin_name config s ≡ (ok id, t)
        → Step s t (ran id config)
    run_failed :
        (stage1_name network_plugin_name : String) (config : PodSandboxConfig) (e : Error)
        → run_pod_sandbox h cli decode init stage1_name network_plugin_name config s ≡ (err e, t)
        → Step s t looked
    stop :
        (id : String) (result : Result Error (Unit {0}))
        → stop_pod_sandbox h cli decode id s ≡ (result, t)
        → Step s t looked
    remove :
        (id : String) (result : Result Error (Unit {0}))
        → remove_pod_sandbox h cli decode id s ≡ (result, t)
        → Step s t (removing id)
    status :
        (id : String) (result : Result Error PodSandboxStatus)
        → pod_sandbox_status h cli decode id s ≡ (result, t)
        → Step s t looked
    list :
        (filter : Option PodSandboxFilter) (result : Result Error (List PodSandbox))
        → list_pod_sandbox h cli decode filter s ≡ (result, t)
        → Step s t looked

  pub data Runs : h.State → List Event → h.State → Type 0 where
    stay : {s : h.State} → Runs s [] s
    go :
        {s t u : h.State} {event : Event} {events : List Event}
        → Step s t event
        → Runs t events u
        → Runs s (event ∷ events) u

  module _ (rkt : IsPodRkt h cli decode init) (keeps : KeepsPods h cli decode init rkt) where
    -- Rkt has the pod that was run for the request.
    abbrev IsThere : h.State → String × PodSandboxConfig → Type 0
    IsThere s e = HasRun h cli decode init rkt e.0 e.1 s

    IsThere-Stay :
        (s : h.State) {A : Type 0} {p : A × h.State} {q : A × h.State} (es : Expected)
        → Stay (rkt.pods s) (rkt.pods p.1)
        → p ≡ q
        → All (IsThere s) es
        → All (IsThere q.1) es
    IsThere-Stay s {q = q} es kept same =
        All-mono
          (λ e there.
            HasRun-Stay h cli decode init rkt e.0 e.1 s q.1 there
              (λ p has uuid. subst (λ x. Stay (rkt.pods s) (rkt.pods x.1)) same kept p has))
          es

    Step-IsThere :
        {s t : h.State} {event : Event} (es : Expected)
        → Step s t event
        → All (IsThere s) es
        → All (IsThere t) (observe event es)
    Step-IsThere {s} {t} es (run stage1_name network_plugin_name config id e) there = (
      run_pod_sandbox-pod h cli decode init rkt stage1_name network_plugin_name config s t e,
      IsThere-Stay s es
          (run_pod_sandbox-Kept h cli decode init rkt keeps stage1_name network_plugin_name config
            s)
          e there,
    )
    Step-IsThere {s} es (run_failed stage1_name network_plugin_name config x e) there =
        IsThere-Stay s es
          (run_pod_sandbox-Kept h cli decode init rkt keeps stage1_name network_plugin_name config
            s)
          e there
    Step-IsThere {s} es (stop id result e) there =
        IsThere-Stay s es (stop_pod_sandbox-Kept h cli decode init rkt keeps id s) e there
    Step-IsThere {s} {t} es (remove id result e) there =
        All-without id es
          (λ entry has other.
            HasRun-Stay h cli decode init rkt entry.0 entry.1 s t has (λ p has_p uuid.
              subst (λ x. StayBut id (rkt.pods s) (rkt.pods x.1)) e
                (remove_pod_sandbox-Kept h cli decode init rkt keeps id s) p has_p
                (λ same. other (sym uuid ∙ same))))
          there
    Step-IsThere {s} es (status id result e) there =
        IsThere-Stay s es (pod_sandbox_status-Stay h cli decode init rkt id s) e there
    Step-IsThere {s} es (list filter result e) there =
        IsThere-Stay s es (list_pod_sandbox-Kept h cli decode init rkt keeps filter s) e there

    Runs-IsThere :
        {s t : h.State} {events : List Event} (es : Expected)
        → Runs s events t
        → All (IsThere s) es
        → All (IsThere t) (replay events es)
    Runs-IsThere es stay there = there
    Runs-IsThere es (go {event = event} step more) there =
        Runs-IsThere (observe event es) more (Step-IsThere es step there)

    -- On a rkt that keeps its pods, of which each of kubernetes can be converted, every sandbox that
    -- a client of the service ran, and whose removal it did not ask for since, is listed: after any
    -- run of the calls about sandboxes, those that fail included, ListPodSandbox without a filter
    -- succeeds, with a sandbox of the ID that RunPodSandbox returned, the metadata of its request and
    -- each of its labels. In the requests of these sandboxes the attempt must fit into 32 bits, and
    -- the keys of the labels and annotations, which differ, must hold no "=".
    pub Runs-IsListedAs :
        {s t : h.State} {events : List Event}
        → Runs s events t
        → ((u : h.State) → AreOurs (rkt.pods u))
        → All (λ e. IsValid e.1) (replay events [])
        → (sandboxes : List PodSandbox) × (u : h.State) × (list_pod_sandbox h cli decode none t
            ≡ (ok sandboxes, u))
          × All (λ e. IsListedAs e.0 e.1 sandboxes) (replay events [])
    Runs-IsListedAs {t = t} {events = events} calls ours valid =
        let (sandboxes, u, listed, held) =
          list_pod_sandbox-IsListedAs h cli decode init rkt t ours in
        (
          sandboxes,
          u,
          listed,
          All-map₂ (λ e there fits. held e.0 e.1 fits there) (replay events [])
              (Runs-IsThere [] calls tt) valid,
        )
