-- ===== src/Image/Store/Runs.antt =====
-- Runs of calls of the image service, and what their client sees.
use rktlet.Base.{
  ◌≡◌, ◌≢◌, refl, sym, ap, ◌∙◌, ◌↔◌, ◌⊎◌, inl, inr, String, Option, none, some, List, [], ◌∷◌, Has,
  Result, ok, err,
}
use rktlet.Errors.{Error}
use rktlet.Host.{Host}
use rktlet.Cli.{CliOps}
use rktlet.Image.Name.{DockerRef, get_canonical_image_name}
use rktlet.Image.Store.{list_images, image_status, remove_image, pull_image}
use rktlet.Image.Store.Types.{Image, ImageFilter, Decoders}
use rktlet.Image.Store.Lookup.{image_status-IsFirst, remove_image-none}
use rktlet.Image.Store.Table.{IsImageRkt, list_images-table, list_images-all, image_status-table}
use rktlet.Image.Store.Effects.{HasId, HasId-images_in, pull_image-table, remove_image-table}

-- What the client learns of a call that succeeded: the reference that was pulled, the ID of the
-- image that was removed, or nothing new.
pub data Event : Type 0 where
  pulled removed : String → Event
  looked : Event

-- The IDs that the client holds to be in the store.
abbrev pub Observed : Event → (String → Type 0) → String → Type 0
Observed (pulled reference) view id = view id ⊎ (reference ≡ id)
Observed (removed gone) view id = view id × (gone ≢ id)
Observed looked view id = view id

abbrev pub Expected : List Event → (String → Type 0) → String → Type 0
Expected [] view = view
Expected (event ∷ events) view = Expected events (Observed event view)

module _ (docker : DockerRef) (h : Host) (cli : CliOps h) (decode : Decoders) where
  -- A call that succeeds, or that asks for what is not there.
  pub data Step : h.State → h.State → Event → Type 0 where
    pull :
        {s t : h.State} (image reference : String)
        → pull_image docker h cli decode image s ≡ (ok reference, t)
        → Step s t (pulled reference)
    remove :
        {s t : h.State} (image : String) (img : Image)
        → remove_image docker h cli decode image s ≡ (ok tt, t)
        → (image_status docker h cli decode image s).0 ≡ ok (some img)
        → Step s t (removed img.id)
    -- a removal of an image that is not there, and a pull of a name that is none
    remove_none :
        {s t : h.State} (image : String) (result : Result Error (Unit {0}))
        → (image_status docker h cli decode image s).0 ≡ ok none
        → remove_image docker h cli decode image s ≡ (result, t)
        → Step s t looked
    pull_refused :
        {s t : h.State} (image : String) (reason : Error) (result : Result Error String)
        → get_canonical_image_name docker image ≡ err reason
        → pull_image docker h cli decode image s ≡ (result, t)
        → Step s t looked
    list :
        {s t : h.State} (filter : Option ImageFilter) (images : List Image)
        → list_images docker h cli decode filter s ≡ (ok images, t)
        → Step s t looked
    status :
        {s t : h.State} (image : String) (found : Option Image)
        → image_status docker h cli decode image s ≡ (ok found, t)
        → Step s t looked

  pub data Runs : h.State → List Event → h.State → Type 0 where
    stay : {s : h.State} → Runs s [] s
    go :
        {s t u : h.State} {event : Event} {events : List Event}
        → Step s t event
        → Runs t events u
        → Runs s (event ∷ events) u

  module _ (rkt : IsImageRkt h cli decode) where
    -- The IDs in a view are those in the table.
    abbrev Sees : (String → Type 0) → h.State → Type 0
    Sees view s = (id : String) → HasId id (rkt.table s) ↔ view id

    Sees-kept :
        {s t : h.State} (view : String → Type 0)
        → rkt.table t ≡ rkt.table s
        → Sees view s
        → Sees view t
    Sees-kept view kept sees id = rw kept (sees id)

    -- A status, whatever it found, leaves the table as it is.
    image_status-kept :
        (image : String) (found : Option Image) (s : h.State)
        → (image_status docker h cli decode image s).0 ≡ ok found
        → rkt.table (image_status docker h cli decode image s).1 ≡ rkt.table s
    image_status-kept image found s e =
        let (images, name, listed, requested, first) =
          image_status-IsFirst docker h cli decode image s found e in
        let (u, answer, kept) = image_status-table docker h cli decode rkt image name s requested in
        ap (λ q. rkt.table q.1) answer ∙ kept

    pull_image-refused :
        (image : String) (reason : Error) (s : h.State)
        → get_canonical_image_name docker image ≡ err reason
        → (pull_image docker h cli decode image s).1 ≡ s
    unfolding pull_image
    pull_image-refused image reason s e = rw e refl

    Step-Sees :
        {s t : h.State} {event : Event} (view : String → Type 0)
        → Step s t event
        → Sees view s
        → Sees (Observed event view) t
    Step-Sees {s} {t} view (pull image reference e) sees = λ id.
        let effect = pull_image-table docker h cli decode rkt image reference s t e id in
        (
          λ x. elim (effect.0 x) [ inl old ↦ inl ((sees id).0 old) | inr new ↦ inr new ],
          λ x. elim x [ inl old ↦ effect.1 (inl ((sees id).1 old)) | inr new ↦ effect.1 (inr new) ],
        )
    Step-Sees {s} {t} view (remove image img e found) sees = λ id.
        let effect = remove_image-table docker h cli decode rkt image img s t e found in
        (
          λ (entry, has, same).
              let (before, other) = (effect entry).0 has in
              ((sees id).0 (entry, before, same), λ gone. other (same ∙ sym gone)),
          λ (seen, other).
              let (entry, has, same) = (sees id).1 seen in
              (entry, (effect entry).1 (has, λ gone. other (sym gone ∙ same)), same),
        )
    Step-Sees {s} {t} view (list filter images e) sees =
        let (u, listed, kept) = list_images-table docker h cli decode rkt filter s in
        Sees-kept view (ap (λ q. rkt.table q.1) (sym e ∙ listed) ∙ kept) sees
    Step-Sees {s} {t} view (status image found e) sees =
        Sees-kept view
          (ap (λ q. rkt.table q.1) (sym e) ∙ image_status-kept image found s (ap (λ q. q.0) e)) sees
    Step-Sees {s} {t} view (remove_none image result missing e) sees =
        Sees-kept view
          (ap (λ q. rkt.table q.1) (sym e ∙ remove_image-none docker h cli decode image s missing)
            ∙ image_status-kept image none s missing)
          sees
    Step-Sees {s} {t} view (pull_refused image reason result refused e) sees =
        Sees-kept view
          (ap (λ q. rkt.table q.1) (sym e)
            ∙ ap rkt.table (pull_image-refused image reason s refused))
          sees

    Runs-Sees :
        {s t : h.State} {events : List Event} (view : String → Type 0)
        → Runs s events t
        → Sees view s
        → Sees (Expected events view) t
    Runs-Sees view stay sees = sees
    Runs-Sees view (go {event = event} step run) sees =
        Runs-Sees (Observed event view) run (Step-Sees view step sees)

    -- If rkt keeps a table of images, then after any run of calls that succeed, or that remove an
    -- image that is not there or pull a name that has no canonical form, ListImages succeeds, and the
    -- IDs that it lists are those that the client expects: it began with the IDs in the table, added
    -- each reference that was pulled, and took out the ID of each image that it removed.
    pub Runs-list_images :
        {s t : h.State} {events : List Event}
        → Runs s events t
        → (images : List Image) × (u : h.State) × (list_images docker h cli decode none t
            ≡ (ok images, u))
          × ((id : String)
              → ((image : Image) × Has image images × (image.id ≡ id))
                ↔ Expected events (λ i. HasId i (rkt.table s)) id)
    Runs-list_images {s} {t} run =
        let (u, listed, kept) = list_images-all docker h cli decode rkt t in
        (
          _,
          u,
          listed,
          λ id.
              let there = HasId-images_in docker h cli decode rkt id t in
              let seen = Runs-Sees _ run (λ i. ((λ x. x), λ x. x)) id in
              (λ x. seen.0 (there.1 x), λ x. there.0 (seen.1 x)),
        )
