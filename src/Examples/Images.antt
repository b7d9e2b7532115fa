-- ===== src/Examples/Images.antt =====
-- rktlet/image and rktlet/util: the image service on a small host.
use rktlet.Base.{ℕ, ◌≡◌, refl, String, none, some, List, [], ◌∷◌, All₂, ok, err, arith}
use rktlet.Base.Chars.{has_prefix, trim_prefix, strip_prefix, lacks}
use rktlet.Base.Decimal.{decimal}
use rktlet.Base.Int.{pos, parse_int}
use rktlet.Errors.{invalid_app_name}
use rktlet.Image.Name.{is_hash, get_canonical_image_name, exist_in_slice}
use rktlet.Image.Store.{
  pass_filter, list_images, list_entries, image_status, remove_image, pull_image, with_user,
  get_image_manifest, to_image, find_image, requested_name,
}
use rktlet.Image.Store.Types.{Decoders, Image, ImageFilter, ImageListEntry}
use rktlet.Image.Store.Listing.{with_user_number, Reports, HasPrinted, list_images-Reports}
use rktlet.Image.Store.Lookup.{IsFirst, image_status-IsFirst}
use rktlet.Examples.World.{small_host, small_cli, small_docker}

abbrev entry : ImageListEntry
entry = record { id = "sha512-1"; name = "busybox:latest"; size = pos 10 }

abbrev image_decode : Decoders
image_decode = record {
  images = λ text. ok (entry ∷ []);
  manifest = λ text. err (invalid_app_name "");
}

abbrev busybox : Image
busybox = record {
  id = "sha512-1";
  repo_tags = "busybox:latest" ∷ [];
  repo_digests = "sha512-1" ∷ [];
  size = 10;
  uid = some (pos 0);
  username = "";
}

abbrev by_name : ImageFilter
by_name = record { image = some "busybox:latest" }

listed : list_images small_docker small_host small_cli image_decode none 0 ≡ (ok (busybox ∷ []), 2)
unfolding list_images list_entries get_image_manifest to_image with_user parse_int pass_filter
listed = refl

listed_by_name :
    (list_images small_docker small_host small_cli image_decode (some by_name) 0).0
    ≡ ok (busybox ∷ [])
unfolding list_images list_entries get_image_manifest to_image with_user parse_int pass_filter
    exist_in_slice
listed_by_name = refl

found :
    image_status small_docker small_host small_cli image_decode "sha512-1" 0
    ≡ (ok (some busybox), 2)
unfolding image_status list_images list_entries get_image_manifest to_image with_user parse_int
    pass_filter find_image is_hash has_prefix strip_prefix lacks
found = refl

was_removed : remove_image small_docker small_host small_cli image_decode "sha512-1" 0 ≡ (ok tt, 3)
unfolding remove_image image_status list_images list_entries get_image_manifest to_image with_user
    parse_int pass_filter find_image is_hash has_prefix strip_prefix lacks
was_removed = refl

pulled : pull_image small_docker small_host small_cli image_decode "sha512-1" 0 ≡ (ok "out", 1)
unfolding pull_image get_canonical_image_name trim_prefix is_hash has_prefix strip_prefix lacks
pulled = refl

image_status-IsFirst_example :
    (images : List Image) × (name : String) × ((list_images small_docker small_host small_cli
        image_decode none 0).0
      ≡ ok images)
    × (requested_name small_docker "sha512-1" ≡ ok name)
    × IsFirst name images (some busybox)
image_status-IsFirst_example =
    image_status-IsFirst small_docker small_host small_cli image_decode "sha512-1" 0 (some busybox)
      (λ i. (found i).0)

list_images-Reports_example :
    (entries : List ImageListEntry) × (u : ℕ) × HasPrinted small_docker small_host small_cli
      image_decode entries 0 u
    × All₂ Reports entries (busybox ∷ [])
list_images-Reports_example =
    list_images-Reports small_docker small_host small_cli image_decode 0 2 (busybox ∷ []) listed

with_user_number_example :
    with_user (decimal 1000) busybox ≡ record busybox { username = decimal 1000 }
with_user_number_example = with_user_number 1000 busybox (omega arith)
