-- ===== src/Examples/ImageTable.antt =====
-- rktlet/image/imagestore.go on a rkt that has one image or none.
use mathlib.Core.Path.{subst}
use rktlet.Base.{
  ℕ, zero, suc, ◌≡◌, ◌≢◌, refl, sym, ap, ◌∙◌, ◌↔◌, ◌⊎◌, inl, inr, String, true, none, some, List,
  [], ◌∷◌, ◌++◌, Has, ◌==◌, text_eq, if◌then◌else◌, Result, ok, err, arith, Bool-cases, eq_iff,
}
use rktlet.Base.Chars.{has_prefix, trim_prefix, strip_prefix, lacks}
use rktlet.Base.Int.{pos, parse_int}
use rktlet.Cli.{CliOps}
use rktlet.Errors.{image_does_not_exist}
use rktlet.Image.Name.{is_hash, get_canonical_image_name, apply_default_image_tag, exist_in_slice}
use rktlet.Image.Store.{
  pass_filter, list_images, list_entries, image_status, remove_image, pull_image, with_user,
  get_image_manifest, to_image, find_image, requested_name, get_image_real_name, get_image_user,
}
use rktlet.Image.Store.Types.{Decoders, Image, ImageListEntry, Manifest}
use rktlet.Image.Store.Table.{IsImageRkt, images_in, fetch_args}
use rktlet.Image.Store.Lookup.{IsNamed}
use rktlet.Image.Store.Effects.{HasId, pull_image-status, remove_image-status}
use rktlet.Image.Store.Runs.{
  pulled, removed, looked, stay, go, pull, remove, remove_none, list, Expected, Runs-list_images,
}
use rktlet.Examples.World.{small_host, small_docker}

abbrev entry : ImageListEntry
entry = record { id = "sha512-1"; name = "busybox:latest"; size = pos 10 }

-- The image is there unless the state is 0.
abbrev table_of : ℕ → List ImageListEntry
table_of zero = []
table_of (suc s) = entry ∷ []

abbrev text_of : ℕ → String
text_of zero = "[]"
text_of (suc s) = "[entry]"

abbrev no_user : Manifest
no_user = record { get_annotation = λ name. none; app_user = none }

abbrev table_decode : Decoders
table_decode = record {
  images = λ text. if text == "[]" then ok [] else ok (entry ∷ []);
  manifest = λ text. ok no_user;
}

abbrev take_out : List String → ℕ → Result String (List String) × ℕ
take_out [] s = (err "usage", s)
take_out (id ∷ ids) s = if id == "sha512-1" then (ok [], 0) else (err "no such image", s)

abbrev answer : List String → ℕ → Result String (List String) × ℕ
answer [] s = (err "usage", s)
answer (verb ∷ args) s =
    if verb == "fetch"
    then (ok ("sha512-1" ∷ []), 1)
    else if verb == "rm"
    then take_out args s
    else if verb == "list"
    then (ok (text_of s ∷ []), s)
    else (ok ("{}" ∷ []), s)

abbrev table_cli : CliOps small_host
table_cli = record {
  command = λ sub_cmd args. "rkt" ∷ sub_cmd ∷ args;
  run_command = λ sub_cmd args s. answer args s;
}

decoded : (s : ℕ) → table_decode.images (text_of s) ≡ ok (table_of s)
decoded zero = refl
decoded (suc s) = refl

last_line :
    (name : String) (front : List String) (reference : String) (s t : ℕ)
    → answer (fetch_args name) s ≡ (ok (front ++ reference ∷ []), t)
    → ("sha512-1" ≡ reference) × (1 ≡ t)
last_line name [] reference s t e = ground arith
last_line name (x ∷ []) reference s t e = absurd (ground arith)
last_line name (x ∷ y ∷ front) reference s t e = absurd (ground arith)

stays : (img : ImageListEntry) (s : ℕ) → Has img (table_of s) → Has img (entry ∷ [])
stays img zero has = absurd has
stays img (suc s) has = has

only : (img : ImageListEntry) → Has img (entry ∷ []) → entry ≡ img
only img (inl same) = same
only img (inr later) = absurd later

gone :
    (id : String) (output : List String) (s t : ℕ)
    → take_out (id ∷ []) s ≡ (ok output, t)
    → (id ≡ "sha512-1") × (t ≡ 0)
gone id output s t e = elim (Bool-cases (id == "sha512-1")) [
  | inl same ↦ ground (arith, eq_iff id "sha512-1")
  | inr other ↦ absurd (ground arith)
]

table_rkt : IsImageRkt small_host table_cli table_decode
table_rkt = record {
  table = table_of;
  manifest_of = λ id. no_user;
  lists = λ s. (text_of s, [], s, refl, decoded s, refl);
  manifests = λ img s has. ("{}" ∷ [], s, refl, refl, refl);
  fetches = λ name reference front s t e.
      let (same, one) = last_line name front reference s t e in
      subst
        (λ u.
          ((img : ImageListEntry) → Has img (table_of s) → Has img (table_of u))
          × ((img : ImageListEntry) × Has img (table_of u) × (img.id ≡ reference))
          × ((img : ImageListEntry)
              → Has img (table_of u)
              → Has img (table_of s) ⊎ (img.id ≡ reference)))
        one
        (
          λ img has. stays img s has,
          (entry, inl refl, same),
          λ img has. inr (sym (ap (λ i. i.id) (only img has)) ∙ same),
        );
  removes = λ id output s t e img.
      let (same, none_left) = gone id output s t e in
      subst (λ u. Has img (table_of u) ↔ (Has img (table_of s) × (img.id ≢ id))) (sym none_left)
        (
          λ has. absurd has,
          λ (has, other). other (sym (ap (λ i. i.id) (only img (stays img s has))) ∙ sym same),
        );
}

first_pull :
    pull_image small_docker small_host table_cli table_decode "busybox:latest" 0
    ≡ (ok "sha512-1", 1)
unfolding pull_image get_canonical_image_name apply_default_image_tag trim_prefix is_hash has_prefix
    strip_prefix lacks
first_pull = refl

is_reference : is_hash "sha512-1" ≡ true
unfolding is_hash has_prefix strip_prefix lacks
is_reference = refl

-- What stands for the entry.
abbrev in_store : Image
in_store = record {
  id = "sha512-1";
  repo_tags = "busybox:latest" ∷ [];
  repo_digests = "sha512-1" ∷ [];
  size = 10;
  uid = some (pos 0);
  username = "";
}

store_images : images_in small_docker small_host table_cli table_decode table_rkt 1 ≡ in_store ∷ []
unfolding to_image with_user parse_int get_image_real_name get_image_user table_rkt
store_images = refl

pulled_images :
    list_images small_docker small_host table_cli table_decode none 1 ≡ (ok (in_store ∷ []), 1)
unfolding list_images list_entries get_image_manifest to_image with_user parse_int pass_filter
    get_image_real_name get_image_user
pulled_images = refl

found_by_tag :
    (image_status small_docker small_host table_cli table_decode "busybox:latest" 1).0
    ≡ ok (some in_store)
unfolding image_status list_images list_entries get_image_manifest to_image with_user parse_int
    pass_filter find_image is_hash has_prefix strip_prefix lacks get_image_real_name get_image_user
    exist_in_slice apply_default_image_tag trim_prefix
found_by_tag = refl

then_removed :
    remove_image small_docker small_host table_cli table_decode "busybox:latest" 1 ≡ (ok tt, 0)
unfolding remove_image image_status list_images list_entries get_image_manifest to_image with_user
    parse_int pass_filter find_image is_hash has_prefix strip_prefix lacks get_image_real_name
    get_image_user exist_in_slice apply_default_image_tag trim_prefix
then_removed = refl

requested : requested_name small_docker "busybox:latest" ≡ ok "busybox:latest"
unfolding is_hash has_prefix strip_prefix lacks apply_default_image_tag trim_prefix
requested = refl

alone :
    (i : Image)
    → Has i (images_in small_docker small_host table_cli table_decode table_rkt 1)
    → IsNamed "busybox:latest" i
    → i.id ≡ "sha512-1"
alone i has named = elim (subst (λ l. Has i l) store_images has) [
  | inl same ↦ sym (ap (λ x. x.id) same)
  | inr later ↦ absurd later
]

pull_image-status_example :
    (found : Image) × (u : ℕ) × (image_status small_docker small_host table_cli table_decode
        "sha512-1" 1
      ≡ (ok (some found), u))
    × IsNamed "sha512-1" found
pull_image-status_example =
    pull_image-status small_docker small_host table_cli table_decode table_rkt "busybox:latest"
      "sha512-1" 0 1 first_pull is_reference

remove_image-status_example :
    (u : ℕ) × (image_status small_docker small_host table_cli table_decode "busybox:latest" 0
      ≡ (ok none, u))
remove_image-status_example =
    remove_image-status small_docker small_host table_cli table_decode table_rkt "busybox:latest"
      "busybox:latest" in_store 1 0 then_removed found_by_tag requested alone

then_missing :
    (image_status small_docker small_host table_cli table_decode "busybox:latest" 0).0 ≡ ok none
unfolding image_status list_images list_entries get_image_manifest to_image with_user parse_int
    pass_filter find_image is_hash has_prefix strip_prefix lacks get_image_real_name get_image_user
    exist_in_slice apply_default_image_tag trim_prefix
then_missing = refl

not_removed :
    remove_image small_docker small_host table_cli table_decode "busybox:latest" 0
    ≡ (err image_does_not_exist, 0)
unfolding remove_image image_status list_images list_entries get_image_manifest to_image with_user
    parse_int pass_filter find_image is_hash has_prefix strip_prefix lacks get_image_real_name
    get_image_user exist_in_slice apply_default_image_tag trim_prefix
not_removed = refl

Runs-list_images_example :
    (images : List Image) × (u : ℕ) × (list_images small_docker small_host table_cli table_decode
        none 0
      ≡ (ok images, u))
    × ((id : String)
        → ((image : Image) × Has image images × (image.id ≡ id))
          ↔ Expected
              (pulled "sha512-1" ∷ looked ∷ removed "sha512-1" ∷ looked ∷ [])
              (λ i. HasId i [])
              id)
unfolding table_rkt
Runs-list_images_example =
    Runs-list_images small_docker small_host table_cli table_decode table_rkt (
      go (pull "busybox:latest" "sha512-1" first_pull) (
        go (list none (in_store ∷ []) pulled_images) (
          go (remove "busybox:latest" in_store then_removed found_by_tag) (
            go (remove_none "busybox:latest" (err image_does_not_exist) then_missing not_removed)
              stay))))
