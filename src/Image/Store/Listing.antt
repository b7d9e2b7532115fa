-- ===== src/Image/Store/Listing.antt =====
-- What the image service lists for what rkt lists.
use mathlib.Core.Path.{subst}
use rktlet.Base.{
  ap, ◌∙◌, ok-injective, ℕ, ◌≡◌, refl, ◌<◌, ◌^◌, inl, inr, String, true, Option, none, List, [],
  ◌∷◌, All, All₂, Bool-cases, Result, ok, arith,
}
use rktlet.Base.Decimal.{decimal}
use rktlet.Base.Int.{to_uint64, parse_int}
use rktlet.Base.Int.Laws.{parse_int-decimal}
use rktlet.Errors.{Error, images_not_listed, external}
use rktlet.Host.{Host, wrapped}
use rktlet.Host.Laws.{and_then-eq-ok, wrapped-eq-ok}
use rktlet.Cli.{CliOps}
use rktlet.Image.Name.{DockerRef}
use rktlet.Image.Store.{
  pass_filter, with_user, to_image, list_entries, list_images, keep, first_text,
}
use rktlet.Image.Store.Types.{Image, ImageFilter, ImageListEntry, Manifest, Decoders}

-- A user that is a number below 2^63 becomes the username of the image, and its UID is left as it
-- was: the test of ParseInt's error is the wrong way round.
pub with_user_number :
    (n : ℕ) (image : Image)
    → n < 2 ^ 63
    → with_user (decimal n) image ≡ record image { username = decimal n }
unfolding with_user
with_user_number n image h = rw (parse_int-decimal n h) refl

-- An image that stands for an entry.
pub record Reports (img : ImageListEntry) (image : Image) : Type 0 where
  pub id : image.id ≡ img.id
  pub digests : image.repo_digests ≡ img.id ∷ []
  pub size : image.size ≡ to_uint64 img.size
  pub tag : (name : String) × (image.repo_tags ≡ name ∷ [])

with_user-Reports :
    (user : String) (img : ImageListEntry) (image : Image)
    → Reports img image
    → Reports img (with_user user image)
unfolding with_user
with_user-Reports user img image r = elim (Bool-cases (parse_int user).failed) [
  | inl failed ↦ rw failed (record { id = r.id; digests = r.digests; size = r.size; tag = r.tag })
  | inr fine ↦ rw fine (record { id = r.id; digests = r.digests; size = r.size; tag = r.tag })
]

All-keep :
    (filter : Option ImageFilter) (image : Image) (images : List Image)
    → All (λ i. pass_filter i filter ≡ true) images
    → All (λ i. pass_filter i filter ≡ true) (keep filter image images)
All-keep filter image images k = elim (Bool-cases (pass_filter image filter)) [
  | inl passes ↦ rw passes (passes, k)
  | inr other ↦ rw other k
]

module _ (docker : DockerRef) (h : Host) (cli : CliOps h) (decode : Decoders) where
  pub to_image-Reports :
      (img : ImageListEntry) (manifest : Result Error Manifest)
      → Reports img (to_image docker img manifest)
  unfolding to_image
  to_image-Reports img manifest =
      with_user-Reports _ img _ (record { id = refl; digests = refl; size = refl; tag = (_, refl) })

  list_entries-Reports :
      (entries : List ImageListEntry) (s : h.State)
      → All₂ Reports entries (list_entries docker h cli decode none entries s).0
  unfolding list_entries pass_filter
  list_entries-Reports [] s = tt
  list_entries-Reports (img ∷ entries) s = (to_image-Reports img _, list_entries-Reports entries _)

  list_entries-pass :
      (filter : Option ImageFilter) (entries : List ImageListEntry) (s : h.State)
      → All
          (λ image. pass_filter image filter ≡ true)
          (list_entries docker h cli decode filter entries s).0
  unfolding list_entries
  list_entries-pass filter [] s = tt
  list_entries-pass filter (img ∷ entries) s =
      All-keep filter _ _ (list_entries-pass filter entries _)

  -- `rkt image list` gave these lines, of which the first is read as these entries.
  abbrev pub HasPrinted : List ImageListEntry → h.State → h.State → Type 0
  HasPrinted entries s t =
      (text : String) × (rest : List String) × (cli.run_command "image"
          ("list" ∷ "--full" ∷ "--format=json" ∷ "--sort=importtime" ∷ []) s
        ≡ (ok (text ∷ rest), t))
      × (decode.images text ≡ ok entries)

  first_text-ok :
      (output : List String) {text : String}
      → first_text output ≡ ok text
      → (rest : List String) × (output ≡ text ∷ rest)
  first_text-ok [] e = absurd (ground arith)
  first_text-ok (t ∷ ts) e = (ts, ap (λ u. u ∷ ts) (ok-injective e))

  list_images-entries :
      (filter : Option ImageFilter) (s t : h.State) {images : List Image}
      → list_images docker h cli decode filter s ≡ (ok images, t)
      → (entries : List ImageListEntry) × (u : h.State) × HasPrinted entries s u
        × (list_entries docker h cli decode filter entries u ≡ (images, t))
  unfolding list_images
  list_images-entries filter s t e =
      let (output, u, ran, e1) =
        and_then-eq-ok (wrapped (λ e. images_not_listed (external e)) _) _ e in
      let (text, v, single, e2) = and_then-eq-ok (first_text output, u) _ e1 in
      let (entries, w, decoded, last) = and_then-eq-ok (decode.images text, v) _ e2 in
      let (rest, whole) = first_text-ok output (ap (λ q. q.0) single) in
      let state : u ≡ w = ap (λ q. q.1) single ∙ ap (λ q. q.1) decoded in
      (
        entries,
        u,
        (text, rest, wrapped-eq-ok _ _ ran ∙ ap (λ l. (ok l, u)) whole, ap (λ q. q.0) decoded),
        ap (λ x. list_entries docker h cli decode filter entries x) state
            ∙ (λ i. (ok-injective (ap (λ q. q.0) last) i, (last i).1)),
      )

  -- With no filter the service lists one image for each entry that `rkt image list --full
  -- --format=json --sort=importtime` printed, which is run first, in rkt's order, with its ID, its
  -- size as a uint64, its ID as the digest, and one tag.
  pub list_images-Reports :
      (s t : h.State) (images : List Image)
      → list_images docker h cli decode none s ≡ (ok images, t)
      → (entries : List ImageListEntry) × (u : h.State) × HasPrinted entries s u
        × All₂ Reports entries images
  list_images-Reports s t images e =
      let (entries, u, printed, same) = list_images-entries none s t e in
      (
        entries,
        u,
        printed,
        subst (λ l. All₂ Reports entries l) (ap (λ q. q.0) same) (list_entries-Reports entries u),
      )

  -- Every image that is listed under a filter passes it.
  list_images-pass :
      (filter : Option ImageFilter) (s t : h.State) (images : List Image)
      → list_images docker h cli decode filter s ≡ (ok images, t)
      → All (λ image. pass_filter image filter ≡ true) images
  list_images-pass filter s t images e =
      let (entries, u, printed, same) = list_images-entries filter s t e in
      subst (λ l. All (λ image. pass_filter image filter ≡ true) l) (ap (λ q. q.0) same)
        (list_entries-pass filter entries u)
