-- ===== src/Examples/ImageNames.antt =====
-- rktlet/util: names of images, with a library that knows of one.
use rktlet.Base.{
  ◌≡◌, refl, ap, ◌∙◌, inl, inr, String, Bool, true, false, ◌==◌, text_eq, if◌then◌else◌, Bool-cases,
  Result, ok, err, arith, eq_iff,
}
use rktlet.Base.Chars.{has_prefix, trim_prefix, strip_prefix, lacks}
use rktlet.Image.Name.{
  DockerRef, is_hash, apply_default_image_tag, get_canonical_image_name, docker_prefix,
}
use rktlet.Image.Name.Laws.{IsLawful, get_canonical_image_name_again}

abbrev full_name : String
full_name = "docker.io/library/busybox:latest"

-- A reference is whether it has its tag.
abbrev parse_busybox : String → Result String Bool
parse_busybox image =
    if image == "busybox"
    then ok false
    else if image == full_name
    then ok true
    else err "invalid reference format"

abbrev show_busybox : Bool → String
show_busybox true = full_name
show_busybox false = "docker.io/library/busybox"

abbrev busybox_docker : DockerRef
busybox_docker = record {
  Named = Bool;
  parse_normalized_named = parse_busybox;
  is_tagged = λ n. n;
  is_digested = λ n. false;
  with_tag = λ n tag. ok true;
  show = show_busybox;
}

full_parsed : parse_busybox full_name ≡ ok true
full_parsed = refl

bare_prefix : has_prefix "busybox" docker_prefix ≡ false
unfolding has_prefix strip_prefix
bare_prefix = refl

full_prefix : has_prefix full_name docker_prefix ≡ false
unfolding has_prefix strip_prefix
full_prefix = refl

canonical :
    get_canonical_image_name busybox_docker "busybox"
    ≡ ok "docker://docker.io/library/busybox:latest"
unfolding get_canonical_image_name apply_default_image_tag trim_prefix is_hash has_prefix
    strip_prefix lacks
canonical = refl

busybox_tagged :
    (image : String) (named tagged : Bool)
    → parse_busybox image ≡ ok named
    → named ≡ false
    → ◌≡◌ {A = Bool} false false
    → ◌≡◌ {A = Result String Bool} (ok true) (ok tagged)
    → (parse_busybox (show_busybox tagged) ≡ ok tagged) × (tagged ≡ true)
busybox_tagged image named true parsed bare plain e = (full_parsed, refl)
busybox_tagged image named false parsed bare plain e = absurd (ground arith)

busybox_no_prefix :
    (image : String) (named : Bool)
    → parse_busybox image ≡ ok named
    → has_prefix image docker_prefix ≡ false
busybox_no_prefix image named e = elim (Bool-cases (image == "busybox")) [
  | inl bare ↦ ap (λ s. has_prefix s docker_prefix) ((eq_iff image "busybox").0 bare) ∙ bare_prefix
  | inr other ↦ elim (Bool-cases (image == full_name)) [
    | inl full ↦
        ap (λ s. has_prefix s docker_prefix) ((eq_iff image full_name).0 full) ∙ full_prefix
    | inr neither ↦ let impossible = (rw (other, neither) at e) in absurd (ground arith)
  ]
]

busybox-IsLawful : IsLawful busybox_docker
busybox-IsLawful = record { parsed_back = busybox_tagged; no_prefix = busybox_no_prefix }

get_canonical_image_name_again_example :
    get_canonical_image_name busybox_docker "docker://docker.io/library/busybox:latest"
    ≡ ok "docker://docker.io/library/busybox:latest"
unfolding trim_prefix is_hash has_prefix strip_prefix lacks
get_canonical_image_name_again_example =
    get_canonical_image_name_again busybox_docker busybox-IsLawful "busybox"
      "docker://docker.io/library/busybox:latest" canonical
