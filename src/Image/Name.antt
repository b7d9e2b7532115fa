-- ===== src/Image/Name.antt =====
-- rktlet/util/image.go: the names under which images are asked for.
pub mod Laws
use rktlet.Base.{
  String, ◌<>◌, Bool, true, false, not, ◌&&◌, ◌||◌, List, [], ◌∷◌, ◌==◌, text_eq, if◌then◌else◌,
  any, Result, ok, err, ◌>>=◌, map_err,
}
use rktlet.Base.Chars.{cut, has_prefix, trim_prefix, strip_prefix, lacks}
use rktlet.Errors.{Error, external, image_not_parsed, tag_not_applied, no_default_tag}

-- github.com/docker/distribution/reference: parsed references, which are not modelled. The texts
-- of its errors are kept.
pub record DockerRef : Type 1 where
  pub Named : Type 0
  pub parse_normalized_named : String → Result String Named
  pub is_tagged : Named → Bool
  pub is_digested : Named → Bool
  pub with_tag : Named → String → Result String Named
  pub show : Named → String

abbrev pub docker_prefix : String
docker_prefix = "docker://"

-- DefaultImageTag of k8s.io/kubernetes/pkg/util/parsers
abbrev pub default_image_tag : String
default_image_tag = "latest"

-- HashRegexp finds something: `^(sha1|sha2|sha256|sha512)-.*$`, where `.` is no line break.
unfoldable pub is_hash : String → Bool
is_hash s = any (has_prefix s) ("sha1-" ∷ "sha2-" ∷ "sha256-" ∷ "sha512-" ∷ []) && lacks b'\n' s

-- The prefix is put in front unless it is there.
abbrev pub with_docker_prefix : String → String
with_docker_prefix name = if has_prefix name docker_prefix then name else docker_prefix <> name

module _ (docker : DockerRef) where
  abbrev tag_named : String → docker.Named → Result Error String
  tag_named image named =
      if not (docker.is_tagged named) && not (docker.is_digested named)
      then (do
        tagged ←
            map_err (λ e. tag_not_applied image (external e))
              (docker.with_tag named default_image_tag)
        ok (docker.show tagged))
      else ok image

  unfoldable pub apply_default_image_tag : String → Result Error String
  apply_default_image_tag image = do
    named ← map_err (λ e. image_not_parsed image (external e)) (docker.parse_normalized_named image)
    tag_named image named

  unfoldable pub get_canonical_image_name : String → Result Error String
  get_canonical_image_name image_name =
      let img_name = trim_prefix image_name docker_prefix in
      if is_hash img_name then ok img_name else (do
        canonical_image_name ←
            map_err (no_default_tag image_name) (apply_default_image_tag img_name)
        ok (with_docker_prefix canonical_image_name))

unfoldable pub exist_in_slice : List String → String → Bool
exist_in_slice [] key = false
exist_in_slice (v ∷ in_slice) key = v == key || exist_in_slice in_slice key
