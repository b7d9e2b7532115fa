-- ===== src/Image/Store/Table.antt =====
-- The image service on a rkt that keeps a table of images.
use mathlib.Core.Path.{subst}
use rktlet.Base.{
  ◌≡◌, ◌≢◌, refl, sym, ap, ◌∙◌, ◌↔◌, ◌⊎◌, inl, inr, String, Option, none, List, [], ◌∷◌, ◌++◌, map,
  join, Has, ok,
}
use rktlet.Errors.{external}
use rktlet.Host.{Host, wrapped}
use rktlet.Host.Laws.{and_then-ok}
use rktlet.Cli.{CliOps}
use rktlet.Image.Name.{DockerRef}
use rktlet.Image.Store.{
  get_image_manifest, to_image, list_entries, list_images, image_status, requested_name, find_image,
  pass_filter, keep,
}
use rktlet.Image.Store.Types.{Image, ImageFilter, ImageListEntry, Manifest, Decoders}

abbrev pub list_args : List String
list_args = "list" ∷ "--full" ∷ "--format=json" ∷ "--sort=importtime" ∷ []

abbrev pub fetch_args : String → List String
fetch_args name = "fetch" ∷ "--pull-policy=update" ∷ "--full=true" ∷ name ∷ []

-- What the code relies on of `rkt image`. The list can always be had and read, and so can the
-- manifest of an image in it, which is one and the same as long as the ID is; asking changes
-- nothing. An image that was fetched is there under the ID in the last line, and besides it those
-- that were there; one that was removed is there no more, and all others are.
pub record IsImageRkt (h : Host) (cli : CliOps h) (decode : Decoders) : Type 0 where
  pub table : h.State → List ImageListEntry
  pub manifest_of : String → Manifest
  pub lists :
      (s : h.State)
      → (text : String) × (rest : List String) × (t : h.State) × (cli.run_command "image" list_args
            s
          ≡ (ok (text ∷ rest), t))
        × (decode.images text ≡ ok (table s))
        × (table t ≡ table s)
  pub manifests :
      (img : ImageListEntry) (s : h.State)
      → Has img (table s)
      → (output : List String) × (t : h.State) × (cli.run_command "image"
            ("cat-manifest" ∷ img.id ∷ [])
            s
          ≡ (ok output, t))
        × (decode.manifest (join "" output) ≡ ok (manifest_of img.id))
        × (table t ≡ table s)
  pub fetches :
      (name reference : String) (front : List String) (s t : h.State)
      → cli.run_command "image" (fetch_args name) s ≡ (ok (front ++ reference ∷ []), t)
      → ((img : ImageListEntry) → Has img (table s) → Has img (table t))
        × ((img : ImageListEntry) × Has img (table t) × (img.id ≡ reference))
        × ((img : ImageListEntry) → Has img (table t) → Has img (table s) ⊎ (img.id ≡ reference))
  pub removes :
      (id : String) (output : List String) (s t : h.State)
      → cli.run_command "image" ("rm" ∷ id ∷ []) s ≡ (ok output, t)
      → (img : ImageListEntry) → Has img (table t) ↔ (Has img (table s) × (img.id ≢ id))

module _ (docker : DockerRef) (h : Host) (cli : CliOps h) (decode : Decoders)
    (rkt : IsImageRkt h cli decode) where
  -- The image that stands for an entry.
  abbrev pub image_of : ImageListEntry → Image
  image_of img = to_image docker img (ok (rkt.manifest_of img.id))

  abbrev pub images_in : h.State → List Image
  images_in s = map image_of (rkt.table s)

  get_image_manifest-table :
      (img : ImageListEntry) (s : h.State)
      → Has img (rkt.table s)
      → (t : h.State) × (get_image_manifest docker h cli decode img.id s
          ≡ (ok (rkt.manifest_of img.id), t))
        × (rkt.table t ≡ rkt.table s)
  unfolding get_image_manifest
  get_image_manifest-table img s has =
      let (output, t, ran, decoded, kept) = rkt.manifests img s has in
      (t, and_then-ok _ (ap (λ p. wrapped external p) ran) ∙ (λ i. (decoded i, t)), kept)

  -- What is left of the images under a filter.
  abbrev pub passing : Option ImageFilter → List Image → List Image
  passing filter [] = []
  passing filter (image ∷ images) = keep filter image (passing filter images)

  passing-none : (images : List Image) → passing none images ≡ images
  unfolding pass_filter
  passing-none [] = refl
  passing-none (image ∷ images) = ap (λ l. image ∷ l) (passing-none images)

  list_entries-table :
      (filter : Option ImageFilter) (entries : List ImageListEntry) (s : h.State)
      → ((img : ImageListEntry) → Has img entries → Has img (rkt.table s))
      → (t : h.State) × (list_entries docker h cli decode filter entries s
          ≡ (passing filter (map image_of entries), t))
        × (rkt.table t ≡ rkt.table s)
  unfolding list_entries
  list_entries-table filter [] s there = (s, refl, refl)
  list_entries-table filter (img ∷ entries) s there =
      let (t, got, kept) = get_image_manifest-table img s (there img (inl refl)) in
      let (u, listed, more) =
        list_entries-table filter entries t
          (λ e has. subst (λ l. Has e l) (sym kept) (there e (inr has))) in
      (u, rw (got, listed) refl, more ∙ kept)

  -- ListImages gives the images in rkt's table that pass the filter, one for each entry and in its
  -- order, and leaves the table as it is.
  pub list_images-table :
      (filter : Option ImageFilter) (s : h.State)
      → (t : h.State) × (list_images docker h cli decode filter s
          ≡ (ok (passing filter (images_in s)), t))
        × (rkt.table t ≡ rkt.table s)
  unfolding list_images
  list_images-table filter s =
      let (text, rest, t, ran, decoded, kept) = rkt.lists s in
      let (u, listed, more) =
        list_entries-table filter (rkt.table s) t
          (λ img has. subst (λ l. Has img l) (sym kept) has) in
      (u, rw (ran, decoded, listed) refl, more ∙ kept)

  pub list_images-all :
      (s : h.State)
      → (t : h.State) × (list_images docker h cli decode none s ≡ (ok (images_in s), t))
        × (rkt.table t ≡ rkt.table s)
  list_images-all s =
      let (t, listed, kept) = list_images-table none s in
      (t, listed ∙ ap (λ l. (ok l, t)) (passing-none _), kept)

  pub image_status-table :
      (image name : String) (s : h.State)
      → requested_name docker image ≡ ok name
      → (t : h.State) × (image_status docker h cli decode image s
          ≡ (ok (find_image name (images_in s)), t))
        × (rkt.table t ≡ rkt.table s)
  unfolding image_status
  image_status-table image name s requested =
      let (t, listed, kept) = list_images-all s in
      (t, and_then-ok _ listed ∙ and_then-ok _ (λ i. (requested i, t)), kept)
