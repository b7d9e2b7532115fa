-- ===== src/Image/Store/Effects.antt =====
-- What pulling and removing an image change in rkt's table.
use mathlib.Core.Path.{subst}
use rktlet.Base.{
  ◌≡◌, ◌≢◌, refl, sym, ap, ◌∙◌, ◌↔◌, ◌⊎◌, inl, inr, String, none, some, List, All-at, Has,
  Has-append_right, Option-cases, Has-map, Has-of_map, ok, arith, true,
}
use rktlet.Host.{Host}
use rktlet.Cli.{CliOps}
use rktlet.Image.Name.{DockerRef, is_hash}
use rktlet.Image.Store.{image_status, remove_image, pull_image, requested_name, find_image}
use rktlet.Image.Store.Types.{Image, ImageListEntry, Decoders}
use rktlet.Image.Store.Listing.{to_image-Reports}
use rktlet.Image.Store.Lookup.{
  IsNamed, IsFirst, find_image-IsFirst, image_status-IsFirst, remove_image-ok, pull_image-ok,
}
use rktlet.Image.Store.Table.{IsImageRkt, image_of, images_in, image_status-table}

-- An image with the ID is in a table.
abbrev pub HasId : String → List ImageListEntry → Type 0
HasId id entries = (img : ImageListEntry) × Has img entries × (img.id ≡ id)

-- What was found is in the list.
found-Has :
    (name : String) (images : List Image) (img : Image)
    → find_image name images ≡ some img
    → Has img images × IsNamed name img
found-Has name images img e =
    let (before, after, whole, others, named) =
      subst (λ found. IsFirst name images found) e (find_image-IsFirst name images) in
    (subst (λ l. Has img l) (sym whole) (Has-append_right img before _ (inl refl)), named)

-- If an image in the list goes by the name, one is found.
found-some :
    (name : String) (images : List Image) (img : Image)
    → Has img images
    → IsNamed name img
    → (found : Image) × (find_image name images ≡ some found) × IsNamed name found
found-some name images img has named = elim (Option-cases (find_image name images)) [
  | inl missing ↦ absurd (
      All-at _ img images
        (subst (λ found. IsFirst name images found) missing (find_image-IsFirst name images)) has
        named)
  | inr (found, e) ↦ (found, e, (found-Has name images found e).1)
]

module _ (docker : DockerRef) (h : Host) (cli : CliOps h) (decode : Decoders)
    (rkt : IsImageRkt h cli decode) where
  id-image_of : (img : ImageListEntry) → (image_of docker h cli decode rkt img).id ≡ img.id
  id-image_of img = (to_image-Reports docker h cli decode img _).id

  pub HasId-images_in :
      (id : String) (s : h.State)
      → HasId id (rkt.table s)
        ↔ ((image : Image) × Has image (images_in docker h cli decode rkt s) × (image.id ≡ id))
  HasId-images_in id s = (
    λ (img, has, same). (_, Has-map _ _ _ has, id-image_of img ∙ same),
    λ (image, has, same).
        let (img, has', e) = Has-of_map _ _ _ has in
        (img, has', sym (id-image_of img) ∙ ap (λ i. i.id) e ∙ same),
  )

  -- A pull that succeeds puts the image under the reference that it gives, and changes no other.
  pub pull_image-table :
      (image reference : String) (s t : h.State)
      → pull_image docker h cli decode image s ≡ (ok reference, t)
      → (id : String) → HasId id (rkt.table t) ↔ (HasId id (rkt.table s) ⊎ (reference ≡ id))
  pull_image-table image reference s t e id =
      let (name, front, canonical, ran) = pull_image-ok docker h cli decode image reference s t e in
      let (kept, there, only) = rkt.fetches name reference front s t ran in
      (
        λ (img, has, same). elim (only img has) [
          | inl old ↦ inl (img, old, same)
          | inr new ↦ inr (sym new ∙ same)
        ],
        λ case. elim case [
          | inl (img, has, same) ↦ (img, kept img has, same)
          | inr same ↦ (there.0, there.1, there.2 ∙ same)
        ],
      )

  -- An image under the reference is in the list.
  reference-images_in :
      (reference : String) (s : h.State)
      → HasId reference (rkt.table s)
      → (found : Image) × (find_image reference (images_in docker h cli decode rkt s) ≡ some found)
        × IsNamed reference found
  reference-images_in reference s has =
      let (image, there, same) = (HasId-images_in reference s).0 has in
      found-some reference _ image there (inl same)

  -- If rkt keeps a table of images and prints a hash for one that it fetched, then an image that was
  -- pulled is found by the reference that the pull gave: its status is that of an image whose ID or
  -- tag is the reference.
  pub pull_image-status :
      (image reference : String) (s t : h.State)
      → pull_image docker h cli decode image s ≡ (ok reference, t)
      → is_hash reference ≡ true
      → (found : Image) × (u : h.State) × (image_status docker h cli decode reference t
          ≡ (ok (some found), u))
        × IsNamed reference found
  pull_image-status image reference s t e hash =
      let (found, first, named) =
        reference-images_in reference t
          ((pull_image-table image reference s t e reference).1 (inr refl)) in
      let requested : requested_name docker reference ≡ ok reference = rw hash refl in
      let (u, status, kept) =
        image_status-table docker h cli decode rkt reference reference t requested in
      (found, u, status ∙ ap (λ o. (ok o, u)) first, named)

  -- What a status that found an image says of the table.
  image_status-found :
      (image : String) (s : h.State) (img : Image)
      → (image_status docker h cli decode image s).0 ≡ ok (some img)
      → (name : String) × (u : h.State) × (requested_name docker image ≡ ok name)
        × (image_status docker h cli decode image s ≡ (ok (some img), u))
        × (rkt.table u ≡ rkt.table s)
        × (find_image name (images_in docker h cli decode rkt s) ≡ some img)
  image_status-found image s img e =
      let (images, name, listed, requested, first) =
        image_status-IsFirst docker h cli decode image s (some img) e in
      let (u, status, kept) = image_status-table docker h cli decode rkt image name s requested in
      let same : find_image name (images_in docker h cli decode rkt s) ≡ some img =
        ground (arith, ap (λ q. q.0) status, e) in
      (name, u, requested, status ∙ ap (λ o. (ok o, u)) same, kept, same)

  -- A removal that succeeds takes the image that was found out of the table, and changes no other.
  pub remove_image-table :
      (image : String) (img : Image) (s t : h.State)
      → remove_image docker h cli decode image s ≡ (ok tt, t)
      → (image_status docker h cli decode image s).0 ≡ ok (some img)
      → (entry : ImageListEntry)
      → Has entry (rkt.table t) ↔ (Has entry (rkt.table s) × (entry.id ≢ img.id))
  remove_image-table image img s t e found entry =
      let (other, v, output, status', ran) = remove_image-ok docker h cli decode image s t e in
      let (name, u, requested, status, kept, first) = image_status-found image s img found in
      let both = sym status' ∙ status in
      let same : other.id ≡ img.id = ground (arith, both) in
      let kept' : rkt.table v ≡ rkt.table s = ap (λ q. rkt.table q.1) both ∙ kept in
      rw (kept', same) at (rkt.removes other.id output v t ran entry)

  -- If rkt keeps a table of images, and all the images that go by the name of the removed one have
  -- its ID, then after a removal that succeeded no image goes by that name: the status is empty.
  pub remove_image-status :
      (image name : String) (img : Image) (s t : h.State)
      → remove_image docker h cli decode image s ≡ (ok tt, t)
      → (image_status docker h cli decode image s).0 ≡ ok (some img)
      → requested_name docker image ≡ ok name
      → ((i : Image) → Has i (images_in docker h cli decode rkt s) → IsNamed name i → i.id ≡ img.id)
      → (u : h.State) × (image_status docker h cli decode image t ≡ (ok none, u))
  remove_image-status image name img s t e found requested alone =
      let (u, status, kept) = image_status-table docker h cli decode rkt image name t requested in
      elim (Option-cases (find_image name (images_in docker h cli decode rkt t))) [
        | inl missing ↦ (u, status ∙ ap (λ o. (ok o, u)) missing)
        | inr (i, first) ↦
            let (has, named) = found-Has name _ i first in
            let (entry, there, same) = Has-of_map _ i _ has in
            let (before, other) = (remove_image-table image img s t e found entry).0 there in
            let id =
              alone i
                (subst (λ x. Has x (images_in docker h cli decode rkt s)) same
                  (Has-map _ entry _ before))
                named in
            absurd (other (sym (id-image_of entry) ∙ ap (λ x. x.id) same ∙ id))
      ]
