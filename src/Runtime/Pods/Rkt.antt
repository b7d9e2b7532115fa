-- ===== src/Runtime/Pods/Rkt.antt =====
-- What pod_sandbox.go relies on of a rkt that keeps its pods.
use rktlet.Base.{◌≡◌, ◌≢◌, refl, ◌∙◌, ℕ, String, ◌<>◌, true, List, [], ◌∷◌, Has, ok}
use rktlet.Host.{Host}
use rktlet.Cli.{CliOps}
use rktlet.Cli.Systemd.{InitOps}
use rktlet.Runtime.Annotations.{is_kubernetes_pod}
use rktlet.Runtime.Containers.{Decoders}
use rktlet.Runtime.Sandbox.RoundTrip.{IsReportOf}
use rktlet.Runtime.Status.{to_pod_sandbox_status}
use rktlet.Runtime.Types.{PodSandboxStatus, RktPod}

-- A later report of the same pod: apps and state may have changed.
pub record IsSamePod (p q : RktPod) : Type 0 where
  pub uuid : q.uuid ≡ p.uuid
  pub annotations : q.user_annotations ≡ p.user_annotations
  pub labels : q.user_labels ≡ p.user_labels

-- The pods are still there.
abbrev pub Stay : List RktPod → List RktPod → Type 0
Stay old new = (p : RktPod) → Has p old → (q : RktPod) × Has q new × IsSamePod p q

-- Every pod of kubernetes can be converted, as those can that the service ran.
abbrev pub AreOurs : List RktPod → Type 0
AreOurs pods =
    (p : RktPod)
    → Has p pods
    → is_kubernetes_pod p ≡ true
    → (status : PodSandboxStatus) × (to_pod_sandbox_status p ≡ ok status)

-- What the code relies on of `rkt app sandbox`, `rkt status` and `rkt list`. A process that was
-- started with a file for the UUID writes into that file nothing but the UUID of its pod, once rkt
-- has the pod, with the annotations and labels in the arguments. Reading and waiting do not end the
-- process; and asking for a status or a list, and removing a file, leave the pods there.
pub record IsPodRkt (h : Host) (cli : CliOps h) (decode : Decoders) (init : InitOps h)
    : Type 1 where
  pub pods : h.State → List RktPod
  pub IsWriter : String → List String → h.State → Type 0
  pub starts :
      (cgroup_parent sub_cmd program file unit : String) (rest args : List String) (s t : h.State)
      → cli.command sub_cmd rest ≡ program ∷ args
      → init.start_process cgroup_parent program args s ≡ (ok unit, t)
      → Has ("--uuid-file-save=" <> file) rest
      → IsWriter file (sub_cmd ∷ rest) t
  pub writes :
      (file text : String) (cmd : List String) (s t : h.State)
      → IsWriter file cmd s
      → h.read_all file s ≡ (ok text, t)
      → text ≢ ""
      → (p : RktPod) × Has p (pods t) × (p.uuid ≡ text) × IsReportOf cmd p
  pub read_keeps :
      (file : String) (cmd : List String) (s : h.State)
      → IsWriter file cmd s
      → IsWriter file cmd (h.read_all file s).1
  pub sleep_keeps :
      (ms : ℕ) (file : String) (cmd : List String) (s : h.State)
      → IsWriter file cmd s
      → IsWriter file cmd (h.sleep ms s)
  pub status_keeps :
      (args : List String) (s : h.State) → Stay (pods s) (pods (cli.run_command "status" args s).1)
  pub remove_keeps : (file : String) (s : h.State) → Stay (pods s) (pods (h.remove file s))
  pub lists :
      (s : h.State)
      → (text : String) × (t : h.State) × (cli.run_command "list" ("--format=json" ∷ []) s
          ≡ (ok (text ∷ []), t))
        × (decode.pods text ≡ ok (pods t))
        × Stay (pods s) (pods t)

pub IsReportOf-same :
    {cmd : List String} {p q : RktPod} → IsSamePod p q → IsReportOf cmd p → IsReportOf cmd q
IsReportOf-same same report = record {
  annotations = same.annotations ∙ report.annotations;
  labels = same.labels ∙ report.labels;
}

pub Stay-refl : (a : List RktPod) → Stay a a
Stay-refl a p has = (p, has, record { uuid = refl; annotations = refl; labels = refl })

pub IsSamePod-trans : {p q r : RktPod} → IsSamePod p q → IsSamePod q r → IsSamePod p r
IsSamePod-trans same again = record {
  uuid = again.uuid ∙ same.uuid;
  annotations = again.annotations ∙ same.annotations;
  labels = again.labels ∙ same.labels;
}

pub Stay-trans : (a b c : List RktPod) → Stay a b → Stay b c → Stay a c
Stay-trans a b c first second p has =
    let (q, has_q, same) = first p has in
    let (r, has_r, again) = second q has_q in (r, has_r, IsSamePod-trans same again)
