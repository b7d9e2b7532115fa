-- ===== src/Image/Store.antt =====
-- rktlet/image/imagestore.go: the CRI image service on top of `rkt image`.
pub mod Types
pub mod Listing
pub mod Lookup
pub mod Table
pub mod Effects
pub mod Runs
use rktlet.Base.{
  String, ◌<>◌, Bool, true, false, ◌||◌, Option, none, some, List, [], ◌∷◌, ◌==◌, text_eq,
  if◌then◌else◌, join, Result, ok, err, map_err,
}
use rktlet.Base.Int.{ParsedInt, parse_int, to_uint64}
use rktlet.Errors.{
  Error, external, images_not_listed, not_unmarshalled, image_not_removed, image_does_not_exist,
  image_not_fetched, malformed_fetch, no_default_tag, index_out_of_range, not_implemented,
}
use rktlet.Host.{Host, Act, ◌>>=◌, and_then, pure, fail, lift, wrap}
use rktlet.Cli.{CliOps}
use rktlet.Image.Name.{
  DockerRef, is_hash, apply_default_image_tag, get_canonical_image_name, exist_in_slice,
}
use rktlet.Image.Store.Types.{Image, ImageFilter, ImageListEntry, Manifest, Decoders}

abbrev original_name_anno : String
original_name_anno = "appc.io/docker/originalname"

unfoldable pub pass_filter : Image → Option ImageFilter → Bool
pass_filter image none = true
pass_filter image (some filter) = elim filter.image [
  | none ↦ true
  | some image_name ↦ exist_in_slice image.repo_tags image_name
]

-- An image is put into the list if it passes.
abbrev keep : Option ImageFilter → Image → List Image → List Image
keep filter image images = if pass_filter image filter then image ∷ images else images

unfoldable pub get_image_user : Manifest → String
get_image_user manifest = elim manifest.app_user [ none ↦ "" | some user ↦ user ]

-- The branches on the result of ParseInt, as they stand in the source.
abbrev user_fields : String → ParsedInt → Image → Image
user_fields user parsed image =
    if parsed.failed
    then record image { uid = some parsed.int }
    else record image { username = user }

unfoldable pub with_user : String → Image → Image
with_user user image = user_fields user (parse_int user) image

-- The first text of a command's output: `output[0]`, which panics if there is none.
abbrev pub first_text : List String → Result Error String
first_text [] = err index_out_of_range
first_text (t ∷ ts) = ok t

-- `output[len(output)-1]`, behind the check that there is one.
abbrev last_text : Error → List String → Result Error String
last_text e [] = err e
last_text e (t ∷ []) = ok t
last_text e (t ∷ u ∷ ts) = last_text e (u ∷ ts)

-- The loop of ImageStatus over the listed images.
unfoldable pub find_image : String → List Image → Option Image
find_image req_img [] = none
find_image req_img (img ∷ images) =
    if img.id == req_img || exist_in_slice img.repo_tags req_img
    then some img
    else find_image req_img images

-- A found image, or the error of an image that is not there.
abbrev existing : Option Image → Result Error Image
existing none = err image_does_not_exist
existing (some img) = ok img

module _ (docker : DockerRef) where
  abbrev with_tag_or_same : String → Result Error String → String
  with_tag_or_same original_name (ok real_name) = real_name
  with_tag_or_same original_name (err e) = original_name

  unfoldable pub get_image_real_name : Manifest → String → String
  get_image_real_name manifest default_name = elim (manifest.get_annotation original_name_anno) [
    | none ↦ default_name
    | some original_name ↦
        with_tag_or_same original_name (apply_default_image_tag docker original_name)
  ]

  -- The name that is looked for: a hash as it is, and any other with a tag.
  abbrev pub requested_name : String → Result Error String
  requested_name req_img =
      if is_hash req_img then ok req_img else apply_default_image_tag docker req_img

  -- What the loop of ListImages makes of an entry, with its manifest or the error of reading it.
  unfoldable pub to_image : ImageListEntry → Result Error Manifest → Image
  to_image img manifest =
      let named : String × String = elim manifest [
        | err e ↦ (img.name, "")
        | ok m ↦ (get_image_real_name m img.name, get_image_user m)
      ] in
      with_user named.1 (record {
        id = img.id;
        repo_tags = named.0 ∷ [];
        repo_digests = img.id ∷ [];
        size = to_uint64 img.size;
        uid = none;
        username = "";
      })

  module _ (h : Host) (cli : CliOps h) (decode : Decoders) where
    unfoldable pub get_image_manifest : String → Act h.State Manifest
    get_image_manifest id = do
      img_manifest ← wrap external (cli.run_command "image" ("cat-manifest" ∷ id ∷ []))
      lift (decode.manifest (join "" img_manifest))

    -- The loop of ListImages.
    unfoldable pub list_entries :
        Option ImageFilter → List ImageListEntry → h.State → List Image × h.State
    list_entries filter [] s = ([], s)
    list_entries filter (img ∷ entries) s =
        let (manifest, s') = get_image_manifest img.id s in
        let (images, s'') = list_entries filter entries s' in
        (keep filter (to_image img manifest) images, s'')

    unfoldable pub list_images : Option ImageFilter → Act h.State (List Image)
    list_images filter = do
      list ←
          wrap (λ e. images_not_listed (external e))
            (cli.run_command "image"
              ("list" ∷ "--full" ∷ "--format=json" ∷ "--sort=importtime" ∷ []))
      text ← lift (first_text list)
      entries ← lift (decode.images text)
      λ s. let (images, s') = list_entries filter entries s in (ok images, s')

    unfoldable pub image_status : String → Act h.State (Option Image)
    image_status image = do
      images ← list_images none
      req_img ← lift (requested_name image)
      pure (find_image req_img images)

    unfoldable pub remove_image : String → Act h.State (Unit {0})
    remove_image image = do
      found ← image_status image
      img ← lift (existing found)
      output ←
          wrap (λ e. image_not_removed (external e)) (cli.run_command "image" ("rm" ∷ img.id ∷ []))
      pure tt

    unfoldable pub pull_image : String → Act h.State String
    pull_image image = do
      canonical_image_name ←
          lift (map_err (no_default_tag image) (get_canonical_image_name docker image))
      output ←
          wrap (λ e. image_not_fetched canonical_image_name (external e))
            (cli.run_command "image"
              ("fetch" ∷ "--pull-policy=update" ∷ "--full=true" ∷ canonical_image_name ∷ []))
      lift (last_text (malformed_fetch canonical_image_name output) output)

    -- ImageFsInfo
    unfoldable pub image_fs_info : Act h.State (Unit {0})
    image_fs_info = fail not_implemented
