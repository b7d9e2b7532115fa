-- ===== src/Runtime/Lifecycle/Listing.antt =====
-- That ListContainers gives every container of the table.
use mathlib.Core.Path.{subst}
use rktlet.Base.{
  ◌≡◌, refl, sym, ap, ◌∙◌, inl, inr, String, ◌<>◌, true, false, none, List, [], ◌∷◌, ◌++◌, Has,
  Has-append_left, Has-append_right, Result, ok, err, Bool-cases, Result-cases, map_err,
}
use rktlet.Base.Chars.{has_prefix}
use rktlet.Errors.{Error, external, not_unmarshalled, status_not_converted}
use rktlet.Host.{Host, Act, and_then, wrapped}
use rktlet.Cli.{CliOps}
use rktlet.Runtime.Annotations.{is_kubernetes_pod}
use rktlet.Runtime.AppName.{build_container_id, parse_container_id, parse_app_name}
use rktlet.Runtime.Containers.{
  Decoders, container_status, list_apps, list_pods, list_containers, to_container, add_container,
  internal_app_prefix, one_text,
}
use rktlet.Runtime.Filter.{pass_filter}
use rktlet.Runtime.Lifecycle.{IsRkt, App}
use rktlet.Runtime.Lifecycle.Table.{IsSound, id_of, parse-id_of}
use rktlet.Runtime.Status.{to_container_status}
use rktlet.Runtime.Status.Laws.{to_container_status-ok}
use rktlet.Runtime.Types.{Container, ContainerStatus, RktApp, RktPod}

-- A step that does not touch the state.
lift_keeps :
    {S A B : Type 0} (r : Result Error A) (k : A → Act S B) (s : S)
    → ((a : A) → (k a s).1 ≡ s)
    → (and_then (r, s) k).1 ≡ s
lift_keeps (ok a) k s h = h a
lift_keeps (err e) k s h = refl

module _ (h : Host) (cli : CliOps h) (rkt : IsRkt h cli) (decode : Decoders) where
  -- The command that asks for the status of an app.
  abbrev pub status_args : App → List String
  status_args app = "status" ∷ app.0 ∷ ("--app=" <> app.1) ∷ "--format=json" ∷ []

  -- What the code relies on of rkt's reports: the list of pods and the status of an app that is in
  -- the table can always be had and read, they hold the apps of the table, in kubernetes' pods,
  -- under their names, and asking leaves the table as it is.
  pub record IsReporting : Type 0 where
    pub lists :
        (s : h.State)
        → (text : String) × (pods : List RktPod) × (t : h.State) × (cli.run_command "list"
              ("--format=json" ∷ [])
              s
            ≡ (ok (text ∷ []), t))
          × (decode.pods text ≡ ok pods)
          × (rkt.apps t ≡ rkt.apps s)
          × ((app : App)
              → Has app (rkt.apps s)
              → (p : RktPod) × Has p pods
                × (p.uuid ≡ app.0)
                × Has app.1 p.app_names
                × (is_kubernetes_pod p ≡ true))
    pub reports :
        (app : App) (s : h.State)
        → Has app (rkt.apps s)
        → (text : String) × (reported : RktApp) × (t : h.State) × (cli.run_command "app"
              (status_args app)
              s
            ≡ (ok (text ∷ []), t))
          × (decode.app text ≡ ok reported)
          × (reported.name ≡ app.1)
    pub status_keeps :
        (app : App) (s : h.State)
        → rkt.apps (cli.run_command "app" (status_args app) s).1 ≡ rkt.apps s

  module _ (reporting : IsReporting) (sanitize : String → Result String String) where
    status_tail :
        (uuid : String) (p : Result String (List String) × h.State)
        → (and_then (wrapped external p) (λ resp s.
            and_then
              (one_text resp, s)
              (λ text s.
                and_then
                  (map_err not_unmarshalled (decode.app text), s)
                  (λ app s. (map_err status_not_converted (to_container_status uuid app), s))))).1
          ≡ p.1
    status_tail uuid (err e, s) = refl
    status_tail uuid (ok resp, s) =
        lift_keeps (one_text resp) _ s
          (λ text. lift_keeps (map_err not_unmarshalled (decode.app text)) _ s (λ app. refl))

    container_status_keeps :
        (id : String) (s : h.State)
        → rkt.apps (container_status h cli sanitize decode id s).1 ≡ rkt.apps s
    unfolding container_status
    container_status_keeps id s = elim (Result-cases (parse_container_id sanitize id)) [
      | inr (e, failed) ↦ rw failed refl
      | inl (app, parsed) ↦ rw parsed (
          ap (λ t. rkt.apps t) (status_tail app.0 (cli.run_command "app" (status_args app) s))
          ∙ reporting.status_keeps app s)
    ]

    -- The status of an app that is in the table.
    container_status_there :
        (app : App) (s : h.State)
        → IsSound sanitize app
        → Has app (rkt.apps s)
        → (status : ContainerStatus) × ((container_status h cli sanitize decode
              (id_of sanitize app)
              s).0
            ≡ ok status)
          × (status.id ≡ id_of sanitize app)
    unfolding container_status
    container_status_there app s sound has =
        let (text, reported, t, ran, decoded, named) = reporting.reports app s has in
        let (status, converted, same) = to_container_status-ok app.0 reported (
          subst (λ n. (attempt : _) × (name : String) × (parse_app_name n ≡ ok (attempt, name)))
            (sym named) sound.parsed) in
        (
          status,
          rw (parse-id_of sanitize app sound, ran, decoded, converted) refl,
          same ∙ ap (λ n. build_container_id app.0 n) named,
        )

    -- The container of an app is listed.
    abbrev pub IsListed : App → List Container → Type 0
    IsListed app containers =
        (c : Container) × Has c containers
        × (c.id ≡ id_of sanitize app)
        × (c.pod_sandbox_id ≡ app.0)

    add_container-IsListed_later :
        (app : App) (p : RktPod) (r : Result Error ContainerStatus) (later : List Container)
        → IsListed app later
        → IsListed app (add_container none p r later)
    add_container-IsListed_later app p (err e) later listed = listed
    add_container-IsListed_later app p (ok status) later (c, has, same, pod) =
        unfold pass_filter in (c, inr has, same, pod)

    add_container-IsListed_first :
        (app : App) (p : RktPod) (r : Result Error ContainerStatus) (later : List Container)
        (status : ContainerStatus)
        → p.uuid ≡ app.0
        → r ≡ ok status
        → status.id ≡ id_of sanitize app
        → IsListed app (add_container none p r later)
    add_container-IsListed_first app p r later status pod reported same =
        unfold pass_filter in rw reported (to_container p status, inl refl, same, pod)

    list_apps_keep :
        (p : RktPod) (names : List String) (s : h.State)
        → rkt.apps (list_apps h cli sanitize decode none p names s).1 ≡ rkt.apps s
    unfolding list_apps
    list_apps_keep p [] s = refl
    list_apps_keep p (n ∷ names) s = elim (Bool-cases (has_prefix n internal_app_prefix)) [
      | inl own ↦ rw own (list_apps_keep p names s)
      | inr kept ↦
          rw kept
            (list_apps_keep p names _ ∙ container_status_keeps (build_container_id p.uuid n) s)
    ]

    list_apps-IsListed :
        (app : App) (p : RktPod) (names : List String) (s : h.State)
        → IsSound sanitize app
        → Has app (rkt.apps s)
        → p.uuid ≡ app.0
        → Has app.1 names
        → has_prefix app.1 internal_app_prefix ≡ false
        → IsListed app (list_apps h cli sanitize decode none p names s).0
    unfolding list_apps
    list_apps-IsListed app p [] s sound has pod named other = absurd named
    list_apps-IsListed app p (n ∷ names) s sound has pod (inl here) other =
        let kept : has_prefix n internal_app_prefix ≡ false =
          ap (λ m. has_prefix m internal_app_prefix) here ∙ other in
        let (status, reported, same) = container_status_there app s sound has in
        let asked : (container_status h cli sanitize decode (build_container_id p.uuid n) s).0
            ≡ ok status =
          (λ i. (container_status h cli sanitize decode (build_container_id (pod i) (here i)) s).0)
          ∙ reported in
        rw kept (add_container-IsListed_first app p _ _ status pod asked same)
    list_apps-IsListed app p (n ∷ names) s sound has pod (inr later) other =
        elim (Bool-cases (has_prefix n internal_app_prefix)) [
          | inl own ↦ rw own (list_apps-IsListed app p names s sound has pod later other)
          | inr kept ↦
              let there =
                subst (λ l. Has app l)
                  (sym (container_status_keeps (build_container_id p.uuid n) s)) has in
              rw kept (
                add_container-IsListed_later app p _ _
                  (list_apps-IsListed app p names _ sound there pod later other))
        ]

    IsListed-append_left :
        (app : App) (xs ys : List Container) → IsListed app xs → IsListed app (xs ++ ys)
    IsListed-append_left app xs ys (c, has, same, pod) = (c, Has-append_left c xs ys has, same, pod)

    IsListed-append_right :
        (app : App) (xs ys : List Container) → IsListed app ys → IsListed app (xs ++ ys)
    IsListed-append_right app xs ys (c, has, same, pod) =
        (c, Has-append_right c xs ys has, same, pod)

    list_pods-IsListed :
        (app : App) (pods : List RktPod) (p : RktPod) (s : h.State)
        → IsSound sanitize app
        → Has app (rkt.apps s)
        → Has p pods
        → p.uuid ≡ app.0
        → Has app.1 p.app_names
        → is_kubernetes_pod p ≡ true
        → has_prefix app.1 internal_app_prefix ≡ false
        → IsListed app (list_pods h cli sanitize decode none pods s).0
    unfolding list_pods
    list_pods-IsListed app [] p s sound has has_pod pod named kubernetes other = absurd has_pod
    list_pods-IsListed app (q ∷ pods) p s sound has (inl here) pod named kubernetes other =
        rw (here, kubernetes)
          (IsListed-append_left app _ _
            (list_apps-IsListed app p p.app_names s sound has pod named other))
    list_pods-IsListed app (q ∷ pods) p s sound has (inr later) pod named kubernetes other =
        elim (Bool-cases (is_kubernetes_pod q)) [
          | inr passed ↦ rw passed (
              IsListed-append_right app [] _
                (list_pods-IsListed app pods p s sound has later pod named kubernetes other))
          | inl counted ↦
              let there = subst (λ l. Has app l) (sym (list_apps_keep q q.app_names s)) has in
              rw counted (
                IsListed-append_right app _ _
                  (list_pods-IsListed app pods p _ sound there later pod named kubernetes other))
        ]

    -- If rkt reports the apps of its table, then ListContainers without a filter gives a list, and
    -- every sound app of the table that is not one of rktlet's own is in it, under its ID and in
    -- its pod.
    pub list_containers-IsListed :
        (app : App) (s : h.State)
        → IsSound sanitize app
        → Has app (rkt.apps s)
        → has_prefix app.1 internal_app_prefix ≡ false
        → (containers : List Container) × (t : h.State) × (list_containers h cli sanitize decode
              none s
            ≡ (ok containers, t))
          × IsListed app containers
    unfolding list_containers
    list_containers-IsListed app s sound has other =
        let (text, pods, t, ran, decoded, kept, held) = reporting.lists s in
        let (p, has_pod, pod, named, kubernetes) = held app has in
        let result = list_pods h cli sanitize decode none pods t in
        (
          result.0,
          result.1,
          rw (ran, decoded) refl,
          list_pods-IsListed app pods p t sound (subst (λ l. Has app l) (sym kept) has) has_pod pod
              named kubernetes other,
        )
