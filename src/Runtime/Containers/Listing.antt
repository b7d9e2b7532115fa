-- ===== src/Runtime/Containers/Listing.antt =====
-- Which containers ListContainers gives.
use mathlib.Core.Path.{subst}
use mathlib.Core.List.{map-append, append_assoc}
use rktlet.Base.{
  sym, map, ◌++◌, if◌then◌else◌, ◌≡◌, refl, ap, ◌∙◌, inl, inr, String, Option, List, [], ◌∷◌,
  Result, ok, err, ok-injective, map_err, map_err-ok, Bool-cases, arith,
}
use rktlet.Base.Chars.{has_prefix}
use rktlet.Errors.{Error, external, not_unmarshalled}
use rktlet.Host.{Host, wrap}
use rktlet.Host.Laws.{and_then-eq-ok, wrapped-eq-ok}
use rktlet.Cli.{CliOps}
use rktlet.Runtime.Annotations.{is_kubernetes_pod}
use rktlet.Runtime.AppName.{build_container_id}
use rktlet.Runtime.Containers.{
  Decoders, container_status, list_apps, list_pods, list_containers, to_container, add_container,
  internal_app_prefix, one_text,
}
use rktlet.Runtime.Filter.{pass_filter}
use rktlet.Runtime.Types.{Container, ContainerFilter, ContainerStatus, RktPod}

pub one_text-ok : (resp : List String) {text : String} → one_text resp ≡ ok text → resp ≡ text ∷ []
one_text-ok [] e = absurd (ground arith)
one_text-ok (t ∷ []) e = ap (λ u. u ∷ []) (ok-injective e)
one_text-ok (t ∷ u ∷ ts) e = absurd (ground arith)

module _ (h : Host) (cli : CliOps h) (sanitize : String → Result String String) (decode : Decoders)
    (filter : Option ContainerFilter) where
  -- An app that is asked for, in a state of the host.
  abbrev pub Question : Type 0
  Question = (RktPod × String) × h.State

  abbrev pub app_of : Question → RktPod × String
  app_of q = q.0

  -- What the status of the app is in that state, and the state that asking leaves.
  abbrev pub answer : Question → Result Error ContainerStatus × h.State
  answer ((p, app_name), s) =
      container_status h cli sanitize decode (build_container_id p.uuid app_name) s

  -- The questions are asked one after the other, from one state to another.
  abbrev pub AreAsked : h.State → List Question → h.State → Type 0
  AreAsked s [] t = s ≡ t
  AreAsked s (q ∷ qs) t = (s ≡ q.1) × AreAsked (answer q).1 qs t

  -- The names that are not those of rktlet's own apps, each with the pod.
  abbrev pub apps_named : RktPod → List String → List (RktPod × String)
  apps_named p [] = []
  apps_named p (n ∷ names) =
      let rest = apps_named p names in
      if has_prefix n internal_app_prefix then rest else (p, n) ∷ rest

  -- The apps of kubernetes' pods, in order.
  abbrev pub apps_of : List RktPod → List (RktPod × String)
  apps_of [] = []
  apps_of (p ∷ pods) =
      let rest = apps_of pods in
      if is_kubernetes_pod p then apps_named p p.app_names ++ rest else rest

  -- What is listed for an answer: nothing for an error, or for what does not pass the filter.
  abbrev pub shown : RktPod → Result Error ContainerStatus → List Container
  shown p (err e) = []
  shown p (ok status) =
      if pass_filter (to_container p status) filter then to_container p status ∷ [] else []

  abbrev pub listed : List Question → List Container
  listed [] = []
  listed (q ∷ qs) = shown q.0.0 (answer q).0 ++ listed qs

  AreAsked-append :
      (qs rs : List Question) (s t u : h.State)
      → AreAsked s qs t
      → AreAsked t rs u
      → AreAsked s (qs ++ rs) u
  AreAsked-append [] rs s t u same later = subst (λ v. AreAsked v rs u) (sym same) later
  AreAsked-append (q ∷ qs) rs s t u (same, asked) later =
      (same, AreAsked-append qs rs (answer q).1 t u asked later)

  add_container-shown :
      (p : RktPod) (r : Result Error ContainerStatus) (later : List Container)
      → add_container filter p r later ≡ shown p r ++ later
  add_container-shown p (err e) later = refl
  add_container-shown p (ok status) later =
      elim (Bool-cases (pass_filter (to_container p status) filter)) [
        | inl passes ↦ rw passes refl
        | inr other ↦ rw other refl
      ]

  listed-append : (qs rs : List Question) → listed (qs ++ rs) ≡ listed qs ++ listed rs
  listed-append [] rs = refl
  listed-append (q ∷ qs) rs =
      ap (λ l. shown q.0.0 (answer q).0 ++ l) (listed-append qs rs)
      ∙ sym (append_assoc (shown q.0.0 (answer q).0) (listed qs) (listed rs))

  -- What was asked for apps, and what came of it.
  abbrev pub HasAsked : List (RktPod × String) → h.State → List Container × h.State → Type 0
  HasAsked apps s r =
      (qs : List Question) × AreAsked s qs r.1 × (map app_of qs ≡ apps) × (r.0 ≡ listed qs)

  list_apps-HasAsked :
      (p : RktPod) (names : List String) (s : h.State)
      → HasAsked (apps_named p names) s (list_apps h cli sanitize decode filter p names s)
  unfolding list_apps
  list_apps-HasAsked p [] s = ([], refl, refl, refl)
  list_apps-HasAsked p (n ∷ names) s = elim (Bool-cases (has_prefix n internal_app_prefix)) [
    | inl own ↦ rw own (list_apps-HasAsked p names s)
    | inr other ↦
        let q : Question = ((p, n), s) in
        let (qs, asked, apps, same) = list_apps-HasAsked p names (answer q).1 in
        rw other (
          q ∷ qs,
          (refl, asked),
          ap (λ l. (p, n) ∷ l) apps,
          ap (λ l. add_container filter p (answer q).0 l) same
              ∙ add_container-shown p (answer q).0 (listed qs),
        )
  ]

  list_pods-HasAsked :
      (pods : List RktPod) (s : h.State)
      → HasAsked (apps_of pods) s (list_pods h cli sanitize decode filter pods s)
  unfolding list_pods
  list_pods-HasAsked [] s = ([], refl, refl, refl)
  list_pods-HasAsked (p ∷ pods) s = elim (Bool-cases (is_kubernetes_pod p)) [
    | inr other ↦ rw other (list_pods-HasAsked pods s)
    | inl counted ↦
        let first = list_apps h cli sanitize decode filter p p.app_names s in
        let (qs, asked, apps, same) = list_apps-HasAsked p p.app_names s in
        let (rs, asked', apps', same') = list_pods-HasAsked pods first.1 in
        rw counted (
          qs ++ rs,
          AreAsked-append qs rs s first.1 _ asked asked',
          map-append app_of qs rs ∙ (λ i. apps i ++ apps' i),
          (λ i. same i ++ same' i) ∙ sym (listed-append qs rs),
        )
  ]

  -- ListContainers lists rkt's pods by one command, and then asks for the status of each app of
  -- kubernetes' pods among them that is not rktlet's own, once, in rkt's order, each in the state of
  -- the host that the one before has left. The containers are those whose status was no error and
  -- that pass the filter, in that order, each as it was reported.
  pub list_containers-ok :
      (s t : h.State) {containers : List Container}
      → list_containers h cli sanitize decode filter s ≡ (ok containers, t)
      → (text : String) × (pods : List RktPod) × (u : h.State) × (cli.run_command "list"
            ("--format=json" ∷ [])
            s
          ≡ (ok (text ∷ []), u))
        × (decode.pods text ≡ ok pods)
        × (qs : List Question) × AreAsked u qs t
        × (map app_of qs ≡ apps_of pods)
        × (containers ≡ listed qs)
  unfolding list_containers
  list_containers-ok s t {containers} e =
      let (resp, u, ran, e1) =
        and_then-eq-ok (wrap external (cli.run_command "list" ("--format=json" ∷ [])) s) _ e in
      let (text, v, single, e2) = and_then-eq-ok (one_text resp, u) _ e1 in
      let (pods, w, decoded, last) =
        and_then-eq-ok (map_err not_unmarshalled (decode.pods text), v) _ e2 in
      let result = list_pods h cli sanitize decode filter pods w in
      let (qs, asked, apps, same) = list_pods-HasAsked pods w in
      let start : w ≡ u = sym (ap (λ q. q.1) single ∙ ap (λ q. q.1) decoded) in
      (
        text,
        pods,
        u,
        wrapped-eq-ok _ _ ran ∙ ap (λ l. (ok l, u)) (one_text-ok resp (ap (λ q. q.0) single)),
        map_err-ok _ (decode.pods text) (ap (λ q. q.0) decoded),
        qs,
        subst (λ x. AreAsked u qs x) (ap (λ q. q.1) last)
            (subst (λ x. AreAsked x qs result.1) start asked),
        apps,
        sym (ok-injective (ap (λ q. q.0) last)) ∙ same,
      )
