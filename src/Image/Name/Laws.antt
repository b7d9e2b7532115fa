-- ===== src/Image/Name/Laws.antt =====
-- The canonical names of images, and the canonical names of those.
use mathlib.Core.Path.{subst}
use rktlet.Base.{
  ◌≡◌, refl, sym, ◌⊎◌, inl, inr, ◌∙◌, ap, String, ◌<>◌, true, false, ◌&&◌, not, text_eq,
  if◌then◌else◌, Bool-cases, ok, Result-cases, arith,
}
use rktlet.Base.Chars.{has_prefix, trim_prefix, strip_prefix}
use rktlet.Base.Chars.Laws.{has_prefix-append, trim_prefix-append}
use rktlet.Image.Name.{
  DockerRef, docker_prefix, default_image_tag, is_hash, apply_default_image_tag,
  get_canonical_image_name, with_docker_prefix,
}

-- What the code relies on of a parser of references: one that was parsed and then tagged is parsed
-- back from its text, as a tagged one; and no text with the prefix "docker://" is a reference.
pub record IsLawful (docker : DockerRef) : Type 0 where
  pub parsed_back :
      (image : String) (named tagged : docker.Named)
      → docker.parse_normalized_named image ≡ ok named
      → docker.is_tagged named ≡ false
      → docker.is_digested named ≡ false
      → docker.with_tag named default_image_tag ≡ ok tagged
      → (docker.parse_normalized_named (docker.show tagged) ≡ ok tagged)
        × (docker.is_tagged tagged ≡ true)
  pub no_prefix :
      (image : String) (named : docker.Named)
      → docker.parse_normalized_named image ≡ ok named
      → has_prefix image docker_prefix ≡ false

trim_prefix-of_hash : (s : String) → is_hash s ≡ true → trim_prefix s docker_prefix ≡ s
unfolding is_hash has_prefix trim_prefix strip_prefix
trim_prefix-of_hash String.[] h = refl
trim_prefix-of_hash (String.◌∷◌ c s) h = ground arith

with_docker_prefix-has_prefix :
    (name : String) → has_prefix (with_docker_prefix name) docker_prefix ≡ true
with_docker_prefix-has_prefix name = elim (Bool-cases (has_prefix name docker_prefix)) [
  | inl there ↦ rw (there, there) refl
  | inr missing ↦ rw (missing, has_prefix-append docker_prefix name) refl
]

-- The canonical name of a canonical name: the prefix is lost where a hash seems to stand behind it.
abbrev pub canonical_again : String → String
canonical_again id =
    if is_hash (trim_prefix id docker_prefix) then trim_prefix id docker_prefix else id

module _ (docker : DockerRef) where
  get_canonical_image_name-of_hash :
      (image_name : String)
      → is_hash (trim_prefix image_name docker_prefix) ≡ true
      → get_canonical_image_name docker image_name ≡ ok (trim_prefix image_name docker_prefix)
  unfolding get_canonical_image_name
  get_canonical_image_name-of_hash image_name h = rw (h) refl

  -- A name that is no hash.
  get_canonical_image_name-of_name :
      (image_name : String) {id : String}
      → is_hash (trim_prefix image_name docker_prefix) ≡ false
      → get_canonical_image_name docker image_name ≡ ok id
      → (name : String) × (apply_default_image_tag docker (trim_prefix image_name docker_prefix)
          ≡ ok name)
        × (with_docker_prefix name ≡ id)
  unfolding get_canonical_image_name
  get_canonical_image_name-of_name image_name h e =
      elim (Result-cases (apply_default_image_tag docker (trim_prefix image_name docker_prefix))) [
        | inl (name, fine) ↦ (name, fine, ground arith)
        | inr (_, failed) ↦ absurd (ground arith)
      ]

  -- A canonical image name is the name without "docker://" if that is a hash, or else begins with
  -- "docker://".
  pub get_canonical_image_name_shape :
      (image_name id : String)
      → get_canonical_image_name docker image_name ≡ ok id
      → ((is_hash id ≡ true) × (id ≡ trim_prefix image_name docker_prefix))
        ⊎ (has_prefix id docker_prefix ≡ true)
  get_canonical_image_name_shape image_name id e =
      elim (Bool-cases (is_hash (trim_prefix image_name docker_prefix))) [
        | inl hash ↦
            let same : trim_prefix image_name docker_prefix ≡ id =
              ground (arith, get_canonical_image_name-of_hash image_name hash) in
            inl (rw (← same) hash, sym same)
        | inr named ↦
            let (name, _, same) = get_canonical_image_name-of_name image_name named e in
            inr (rw (← same) (with_docker_prefix-has_prefix name))
      ]

  -- A name that stays as it is, and is put behind the prefix.
  abbrev IsKept : String → Type 0
  IsKept name =
      (apply_default_image_tag docker name ≡ ok name) × (has_prefix name docker_prefix ≡ false)

  get_canonical_image_name-of_IsKept :
      (name : String)
      → IsKept name
      → get_canonical_image_name docker (docker_prefix <> name)
        ≡ ok (canonical_again (docker_prefix <> name))
  unfolding get_canonical_image_name
  get_canonical_image_name-of_IsKept name (kept, bare) = elim (Bool-cases (is_hash name)) [
    | inl hash ↦ rw (trim_prefix-append docker_prefix name, hash) refl
    | inr plain ↦ rw (trim_prefix-append docker_prefix name, plain, kept, bare) refl
  ]

  apply_default_image_tag-again :
      IsLawful docker
      → (image : String) {name : String} → apply_default_image_tag docker image ≡ ok name
      → IsKept name
  unfolding apply_default_image_tag
  apply_default_image_tag-again L image {name} e =
      elim (Result-cases (docker.parse_normalized_named image)) [
        | inr (_, failed) ↦ absurd (ground arith)
        | inl (named, parsed) ↦
            elim (Bool-cases (not (docker.is_tagged named) && not (docker.is_digested named))) [
              | inr kept ↦
                  let same : image ≡ name = ground arith in
                  subst IsKept same (e ∙ ap ok (sym same), L.no_prefix image named parsed)
              | inl bare ↦ elim (Result-cases (docker.with_tag named default_image_tag)) [
                | inr (_, failed) ↦ absurd (ground arith)
                | inl (tagged, fine) ↦
                    let same : docker.show tagged ≡ name = ground arith in
                    let (back, is_tagged) =
                      L.parsed_back image named tagged parsed (ground arith) (ground arith) fine in
                    subst IsKept same
                      (rw (back, is_tagged) refl, L.no_prefix (docker.show tagged) tagged back)
              ]
            ]
      ]

  -- If the parser of references parses back what it tagged, and takes no text with the prefix, then
  -- a canonical name has a canonical name, which is the name itself, unless the text behind its
  -- "docker://" looks like a hash: then it is that text, without the prefix.
  pub get_canonical_image_name_again :
      IsLawful docker
      → (image_name id : String) → get_canonical_image_name docker image_name ≡ ok id
      → get_canonical_image_name docker id ≡ ok (canonical_again id)
  get_canonical_image_name_again L image_name id e =
      elim (Bool-cases (is_hash (trim_prefix image_name docker_prefix))) [
        | inl hash ↦
            let same : trim_prefix image_name docker_prefix ≡ id =
              ground (arith, get_canonical_image_name-of_hash image_name hash) in
            let is_hash_id : is_hash id ≡ true = rw (← same) hash in
            let trimmed = trim_prefix-of_hash id is_hash_id in
            let behind : is_hash (trim_prefix id docker_prefix) ≡ true = rw trimmed is_hash_id in
            get_canonical_image_name-of_hash id behind ∙ rw behind refl
        | inr plain ↦
            let (name, fine, whole) = get_canonical_image_name-of_name image_name plain e in
            let kept = apply_default_image_tag-again L _ fine in
            let same : docker_prefix <> name ≡ id = (rw kept.1 at whole) in
            subst (λ n. get_canonical_image_name docker n ≡ ok (canonical_again n)) same
              (get_canonical_image_name-of_IsKept name kept)
      ]
