-- ===== src/Runtime/Lifecycle/Refinement.antt =====
-- What runs of the calls about containers make of the table of apps, and of a client's table of IDs.
use mathlib.Core.Path.{subst}
use rktlet.Base.{◌≡◌, sym, ap, ◌∙◌, String, List, ◌∷◌, All, ◌≤◌, Has, Result}
use rktlet.Base.Chars.{Lacks}
use rktlet.Host.{Host}
use rktlet.Cli.{CliOps}
use rktlet.Image.Name.{DockerRef}
use rktlet.Runtime.AppAdd.Types.{CapsLib}
use rktlet.Runtime.AppName.{max_uint32}
use rktlet.Runtime.Containers.{CreateContainerRequest}
use rktlet.Runtime.Lifecycle.{
  IsRkt, IsStable, IsPlain, ids_of, without_id, Event, created, observe, Step, create, start, stop,
  remove, Runs, stay, go,
}
use rktlet.Runtime.Lifecycle.Steps.{
  create_container-adds, start_container-keeps, stop_container-keeps, remove_container-removes,
}
use rktlet.Runtime.Lifecycle.Table.{
  IsTable, ids_of-without_app, without_app-IsTable, id_of_injective, Has-ids_of, IsSound-of_Has,
}

module _ (h : Host) (cli : CliOps h) (rkt : IsRkt h cli) (sanitize : String → Result String String)
    (docker : DockerRef) (caps : CapsLib) (stable : IsStable sanitize) where
  -- A call that succeeds leaves a sound table, whose IDs are what the client sees.
  Step-refines :
      {s t : h.State} {event : Event}
      → Step h cli sanitize docker caps s t event
      → IsPlain event
      → IsTable sanitize (rkt.apps s)
      → IsTable sanitize (rkt.apps t)
        × (ids_of (rkt.apps t) ≡ observe sanitize event (ids_of (rkt.apps s)))
  Step-refines {s} {t} (create req id e) (clean, small) (all, distinct) =
      let (app, same, sound, table, fresh) =
        create_container-adds h cli rkt sanitize caps docker req id s t stable clean small e in
      (
        subst (λ l. IsTable sanitize l) (sym table) ((sound, all), (fresh, distinct)),
        ap (λ l. ids_of l) table ∙ ap (λ i. i ∷ ids_of (rkt.apps s)) same,
      )
  Step-refines {s} {t} (start id e) plain valid =
      let kept = start_container-keeps h cli rkt sanitize id s t e in
      (subst (λ l. IsTable sanitize l) (sym kept) valid, ap (λ l. ids_of l) kept)
  Step-refines {s} {t} (stop id e) plain valid =
      let kept = stop_container-keeps h cli rkt sanitize id s t e in
      (subst (λ l. IsTable sanitize l) (sym kept) valid, ap (λ l. ids_of l) kept)
  Step-refines {s} {t} (remove id e) plain valid =
      let (app, meant, clean, table) = remove_container-removes h cli rkt sanitize id s t e in
      (
        subst (λ l. IsTable sanitize l) (sym table)
            (without_app-IsTable sanitize app (rkt.apps s) valid),
        ap (λ l. ids_of l) table
            ∙ ids_of-without_app sanitize app (rkt.apps s) clean valid.0
            ∙ ap (λ i. without_id i (ids_of (rkt.apps s))) (sym meant),
      )

  -- If SanitizeACName leaves the names that are built with it as they are, then after any run of
  -- creations, starts, stops and removals that succeed, from a sound table of apps, on a rkt that
  -- keeps its table, in which every container was created in a sandbox whose UUID has no colon and
  -- with an attempt of 32 bits, the table is sound: each app's pod, name, attempt and container can
  -- be read back from its ID, and none stands twice.
  pub Runs-IsTable :
      {s t : h.State} {events : List Event}
      → Runs h cli sanitize docker caps s events t
      → All IsPlain events
      → IsTable sanitize (rkt.apps s)
      → IsTable sanitize (rkt.apps t)
  Runs-IsTable stay plain valid = valid
  Runs-IsTable (go step run) (first, later) valid =
      Runs-IsTable run later (Step-refines step first valid).0

  -- If SanitizeACName leaves the names that are built with it as they are, then the ID of a
  -- container that is created, in a sandbox whose UUID has no colon and with an attempt of 32 bits,
  -- on a rkt with a sound table, is none of those that are there.
  pub create_container-fresh :
      {s t : h.State} {req : CreateContainerRequest} {id : String}
      → Step h cli sanitize docker caps s t (created req id)
      → Lacks b':' req.pod_sandbox_id
      → req.config.attempt ≤ max_uint32
      → IsTable sanitize (rkt.apps s)
      → ¬ Has id (ids_of (rkt.apps s))
  create_container-fresh {s} {t} (create req id e) clean small valid has =
      let (app, same, sound, table, fresh) =
        create_container-adds h cli rkt sanitize caps docker req id s t stable clean small e in
      let (other, there, other_same) = Has-ids_of sanitize id (rkt.apps s) has in
      let other_sound = IsSound-of_Has sanitize other (rkt.apps s) valid.0 there in
      let one = id_of_injective sanitize other app other_sound sound (other_same ∙ sym same) in
      fresh (subst (λ a. Has a (rkt.apps s)) one there)
