-- ===== src/Runtime/Lifecycle.antt =====
-- Containers through their lives: runs of the calls of rktlet/runtime/rkt_runtime.go that create,
-- start, stop and remove them, on a rkt that keeps a table of apps, and the table of containers
-- that a client of these calls keeps.
pub mod Table
pub mod Steps
pub mod Refinement
pub mod Listing
use rktlet.Base.{
  ◌≡◌, String, ◌<>◌, Bool, ◌&&◌, some, List, [], ◌∷◌, map, ◌==◌, text_eq, if◌then◌else◌, Has,
  Result, ok, err, ◌^◌, ◌≤◌,
}
use rktlet.Base.Chars.{Lacks}
use rktlet.Host.{Host, Act}
use rktlet.Cli.{CliOps}
use rktlet.Image.Name.{DockerRef}
use rktlet.Runtime.AppAdd.Shape.{name_of}
use rktlet.Runtime.AppAdd.Types.{CapsLib}
use rktlet.Runtime.AppName.{build_container_id, parse_container_id, build_app_name, max_uint32}
use rktlet.Runtime.Containers.{
  CreateContainerRequest, create_container, start_container, stop_container, remove_container,
}

-- An app in the table of rkt: the UUID of its pod and its name.
abbrev pub App : Type 0
App = String × String

abbrev pub same_app : App → App → Bool
same_app (pod, name) (other_pod, other_name) = pod == other_pod && name == other_name

-- The table without an app.
abbrev pub without_app : App → List App → List App
without_app app [] = []
without_app app (a ∷ apps) =
    let rest = without_app app apps in if same_app a app then rest else a ∷ rest

-- The IDs without one.
abbrev pub without_id : String → List String → List String
without_id id [] = []
without_id id (i ∷ ids) = let rest = without_id id ids in if i == id then rest else i ∷ rest

-- What the code relies on of `rkt app` and of the host. An app that is added goes by the name of
-- the first `--name=` and was not there before; one that is removed is there no more; starting
-- and stopping, and what is done for mounts, leave the table as it is.
pub record IsRkt (h : Host) (cli : CliOps h) : Type 0 where
  pub apps : h.State → List App
  pub adds :
      (pod image name : String) (rest output : List String) (s t : h.State)
      → cli.run_command "app" ("add" ∷ pod ∷ image ∷ rest) s ≡ (ok output, t)
      → name_of rest ≡ some name
      → (apps t ≡ (pod, name) ∷ apps s) × (¬ Has (pod, name) (apps s))
  pub removes :
      (pod name : String) (output : List String) (s t : h.State)
      → cli.run_command "app" ("rm" ∷ pod ∷ ("--app=" <> name) ∷ []) s ≡ (ok output, t)
      → apps t ≡ without_app (pod, name) (apps s)
  pub starts :
      (pod name : String) (output : List String) (s t : h.State)
      → cli.run_command "app" ("start" ∷ pod ∷ ("--app=" <> name) ∷ []) s ≡ (ok output, t)
      → apps t ≡ apps s
  pub stops :
      (pod name : String) (output : List String) (s t : h.State)
      → cli.run_command "app" ("stop" ∷ pod ∷ ("--app=" <> name) ∷ []) s ≡ (ok output, t)
      → apps t ≡ apps s
  pub stat_keeps : (path : String) (s : h.State) → apps (h.stat path s).1 ≡ apps s
  pub mkdir_all_keeps :
      (mode : _) (path : String) (s : h.State) → apps (h.mkdir_all mode path s).1 ≡ apps s
  pub new_uuid_keeps : (s : h.State) → apps (h.new_uuid s).1 ≡ apps s

-- SanitizeACName leaves the names that are built with it as they are.
abbrev pub IsStable : (String → Result String String) → Type 0
IsStable sanitize =
    (attempt : _) (name app_name : String)
    → build_app_name sanitize attempt name ≡ ok app_name
    → sanitize app_name ≡ ok app_name

-- The IDs of the containers in the table of rkt.
abbrev pub ids_of : List App → List String
ids_of [] = []
ids_of ((pod, name) ∷ apps) = build_container_id pod name ∷ ids_of apps

-- What a client does with containers: what it asked for and the ID that was returned, or the ID
-- that it named.
pub data Event : Type 0 where
  created : CreateContainerRequest → String → Event
  started stopped was_removed : String → Event

-- A container in a sandbox whose UUID has no colon, with an attempt of 32 bits.
abbrev pub IsPlain : Event → Type 0
IsPlain (created req id) = Lacks b':' req.pod_sandbox_id × (req.config.attempt ≤ max_uint32)
IsPlain (started id) = Unit
IsPlain (stopped id) = Unit
IsPlain (was_removed id) = Unit

-- The ID of the app that an ID stands for, whose name SanitizeACName has made.
abbrev pub id_meant : (String → Result String String) → String → String
id_meant sanitize id = elim (parse_container_id sanitize id) [
  | err e ↦ id
  | ok app ↦ build_container_id app.0 app.1
]

-- The client's view: a table of IDs.
abbrev pub observe : (String → Result String String) → Event → List String → List String
observe sanitize (created req id) ids = id ∷ ids
observe sanitize (started id) ids = ids
observe sanitize (stopped id) ids = ids
observe sanitize (was_removed id) ids = without_id (id_meant sanitize id) ids

abbrev pub replay : (String → Result String String) → List Event → List String → List String
replay sanitize [] ids = ids
replay sanitize (event ∷ events) ids = replay sanitize events (observe sanitize event ids)

module _ (h : Host) (cli : CliOps h) (sanitize : String → Result String String) (docker : DockerRef)
    (caps : CapsLib) where
  -- A call that succeeds.
  pub data Step (s t : h.State) : Event → Type 0 where
    create :
        (req : CreateContainerRequest) (id : String)
        → create_container h cli sanitize docker caps req s ≡ (ok id, t)
        → Step s t (created req id)
    start : (id : String) → start_container h cli sanitize id s ≡ (ok tt, t) → Step s t (started id)
    stop : (id : String) → stop_container h cli sanitize id s ≡ (ok tt, t) → Step s t (stopped id)
    remove :
        (id : String)
        → remove_container h cli sanitize id s ≡ (ok tt, t)
        → Step s t (was_removed id)

  -- A run of such calls.
  pub data Runs : h.State → List Event → h.State → Type 0 where
    stay : {s : h.State} → Runs s [] s
    go :
        {s t u : h.State} {event : Event} {events : List Event}
        → Step s t event
        → Runs t events u
        → Runs s (event ∷ events) u
