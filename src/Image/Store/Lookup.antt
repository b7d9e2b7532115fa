-- ===== src/Image/Store/Lookup.antt =====
-- Which image a name stands for, and what removing and pulling an image do.
use rktlet.Base.{
  ◌≡◌, refl, ap, ◌∙◌, ◌⊎◌, inl, inr, ◌↔◌, String, true, ◌||◌, Option, none, some, List, [], ◌∷◌,
  ◌++◌, All, Has, ◌==◌, text_eq, Bool-cases, ok, err, Result-cases, arith, eq_iff,
}
use rktlet.Errors.{Error, external, image_does_not_exist, image_not_removed}
use rktlet.Host.{Host, and_then, ◌>>=◌, wrap, pure}
use rktlet.Host.Laws.{and_then-eq-ok, wrapped-eq-ok}
use rktlet.Cli.{CliOps}
use rktlet.Image.Name.{DockerRef, exist_in_slice, get_canonical_image_name}
use rktlet.Image.Store.{
  find_image, list_images, image_status, remove_image, pull_image, requested_name, last_text,
  existing,
}
use rktlet.Image.Store.Types.{Image, Decoders}

exist_in_slice_iff : (vs : List String) (key : String) → (exist_in_slice vs key ≡ true) ↔ Has key vs
unfolding exist_in_slice
exist_in_slice_iff [] key = ground arith
exist_in_slice_iff (v ∷ vs) key = ground (arith, eq_iff v key, exist_in_slice_iff vs key)

-- An image that goes by a name: its ID, or one of its tags.
abbrev pub IsNamed : String → Image → Type 0
IsNamed name image = (image.id ≡ name) ⊎ Has name image.repo_tags

-- The first image of the name among the images, or none.
abbrev pub IsFirst : String → List Image → Option Image → Type 0
IsFirst name images none = All (λ i. ¬ IsNamed name i) images
IsFirst name images (some image) =
    (before : List Image) × (after : List Image) × (images ≡ before ++ image ∷ after)
    × All (λ i. ¬ IsNamed name i) before
    × IsNamed name image

IsFirst-cons :
    (name : String) (i : Image) (images : List Image) (found : Option Image)
    → (¬ IsNamed name i)
    → IsFirst name images found
    → IsFirst name (i ∷ images) found
IsFirst-cons name i images none h k = (h, k)
IsFirst-cons name i images (some image) h (before, after, whole, others, named) =
    (i ∷ before, after, ap (λ l. i ∷ l) whole, (h, others), named)

IsNamed-iff :
    (name : String) (i : Image)
    → ((i.id == name || exist_in_slice i.repo_tags name) ≡ true) ↔ IsNamed name i
IsNamed-iff name i = ground (arith, eq_iff i.id name, exist_in_slice_iff i.repo_tags name)

pub find_image-IsFirst :
    (name : String) (images : List Image) → IsFirst name images (find_image name images)
unfolding find_image
find_image-IsFirst name [] = tt
find_image-IsFirst name (i ∷ images) =
    elim (Bool-cases (i.id == name || exist_in_slice i.repo_tags name)) [
      | inl here ↦ rw here ([], images, refl, tt, (IsNamed-iff name i).0 here)
      | inr other ↦ rw other (
          IsFirst-cons name i images _ (λ n. ground (arith, (IsNamed-iff name i).1 n))
            (find_image-IsFirst name images))
    ]

module _ (docker : DockerRef) (h : Host) (cli : CliOps h) (decode : Decoders) where
  -- A status that is no error is the first of the images that rkt lists whose ID or tag is the
  -- requested name, where the name of a hash is itself and any other has its tag; and it is empty
  -- if no image goes by that name.
  pub image_status-IsFirst :
      (image : String) (s : h.State) (found : Option Image)
      → (image_status docker h cli decode image s).0 ≡ ok found
      → (images : List Image) × (name : String) × ((list_images docker h cli decode none s).0
          ≡ ok images)
        × (requested_name docker image ≡ ok name)
        × IsFirst name images found
  unfolding image_status
  image_status-IsFirst image s found e =
      elim (Result-cases (list_images docker h cli decode none s).0) [
        | inr (_, failed) ↦ absurd (ground arith)
        | inl (images, listed) ↦ elim (Result-cases (requested_name docker image)) [
          | inr (_, failed) ↦ absurd (ground arith)
          | inl (name, requested) ↦
              let same : find_image name images ≡ found = ground arith in
              (images, name, listed, requested, rw (← same) (find_image-IsFirst name images))
        ]
      ]

  -- An image is removed only if its status was found: `rkt image rm` is run, after the status was
  -- asked for, with the ID of the image that was found, and it succeeds.
  pub remove_image-ok :
      (image : String) (s t : h.State)
      → remove_image docker h cli decode image s ≡ (ok tt, t)
      → (img : Image) × (u : h.State) × (output : List String) × (image_status docker h cli decode
            image s
          ≡ (ok (some img), u))
        × (cli.run_command "image" ("rm" ∷ img.id ∷ []) u ≡ (ok output, t))
  unfolding remove_image
  remove_image-ok image s t e =
      let (found, u, status, rest) =
        and_then-eq-ok (image_status docker h cli decode image s) _ e in
      removed found u status rest
    where
      removed :
          (found : Option Image) (u : h.State)
          → image_status docker h cli decode image s ≡ (ok found, u)
          → and_then
              (existing found, u)
              (λ img.
                wrap
                  (λ e. image_not_removed (external e))
                  (cli.run_command "image" ("rm" ∷ img.id ∷ []))
                >>= λ output. pure tt)
            ≡ (ok tt, t)
          → (img : Image) × (v : h.State) × (output : List String) × (image_status docker h cli
                decode image s
              ≡ (ok (some img), v))
            × (cli.run_command "image" ("rm" ∷ img.id ∷ []) v ≡ (ok output, t))
      removed none u status rest = absurd (ground arith)
      removed (some img) u status rest =
          let (output, v, ran, last) = and_then-eq-ok _ _ rest in
          (img, u, output, status, wrapped-eq-ok _ _ (ran ∙ ap (λ q. (ok output, q.1)) last))

  -- An image that is not in the store is not removed: no command but those of the status is run.
  pub remove_image-none :
      (image : String) (s : h.State)
      → (image_status docker h cli decode image s).0 ≡ ok none
      → remove_image docker h cli decode image s
        ≡ (err image_does_not_exist, (image_status docker h cli decode image s).1)
  unfolding remove_image
  remove_image-none image s e = rw (e, existing) refl

  last_text-ok :
      (e : Error) (output : List String) {t : String}
      → last_text e output ≡ ok t
      → (front : List String) × (output ≡ front ++ t ∷ [])
  last_text-ok e [] h = absurd (ground arith)
  last_text-ok e (t ∷ []) h = ([], ground arith)
  last_text-ok e (t ∷ u ∷ ts) h =
      let (front, same) = last_text-ok e (u ∷ ts) h in (t ∷ front, ap (λ l. t ∷ l) same)

  -- An image is pulled by one command, `rkt image fetch` of its canonical name, and its reference is
  -- the last line that the command printed.
  pub pull_image-ok :
      (image reference : String) (s t : h.State)
      → pull_image docker h cli decode image s ≡ (ok reference, t)
      → (name : String) × (front : List String) × (get_canonical_image_name docker image ≡ ok name)
        × (cli.run_command "image" ("fetch" ∷ "--pull-policy=update" ∷ "--full=true" ∷ name ∷ []) s
            ≡ (ok (front ++ reference ∷ []), t))
  unfolding pull_image
  pull_image-ok image reference s t e =
      elim (Result-cases (get_canonical_image_name docker image)) [
        | inr (_, failed) ↦ absurd (ground arith)
        | inl (name, canonical) ↦
            let (output, u, ran, last) = and_then-eq-ok _ _ (rw canonical at e) in
            let (front, lines) = last_text-ok _ output (ap (λ q. q.0) last) in
            (name, front, canonical, wrapped-eq-ok _ _ ran ∙ (λ i. (ok (lines i), (last i).1)))
      ]
