-- ===== src/Runtime/AppName/RoundTrip.antt =====
-- What is built is parsed back, and what is parsed was built so.
use rktlet.Base.{
  ℕ, ◌≤◌, ◌≡◌, ◌↔◌, refl, ap, ◌∙◌, String, ◌<>◌, some, none, Option-cases, Result, ok, err, map_err,
  Result-cases, ◌>>=◌, arith, inl, inr,
}
use rktlet.Base.Chars.{cut, split_two, Lacks}
use rktlet.Base.Chars.Laws.{
  cut-IsCut, cut-of_Lacks, cut-eq-none, cut-single-append, split_two-append, IsCut-whole,
}
use rktlet.Base.Decimal.{
  decimal, parse_uint, Parsed, value, syntax, range, parse_uint-decimal, parse_uint-le,
  decimal-Lacks,
}
use rktlet.Errors.{Error, external, invalid_container_id, invalid_app_name}
use rktlet.Runtime.AppName.{
  attempt_of, max_uint32, build_container_id, parse_app_name, parse_container_id, build_app_name,
}

parse_app_name-decimal :
    (attempt : ℕ) (s_name : String)
    → attempt ≤ max_uint32
    → parse_app_name (decimal attempt <> "-" <> s_name) ≡ ok (attempt, s_name)
unfolding parse_app_name
parse_app_name-decimal attempt s_name h =
    rw
      (
        split_two-append "-" (decimal attempt) s_name (decimal-Lacks 45 attempt (omega arith)),
        parse_uint-decimal max_uint32 attempt h,
      )
      refl

module _ (sanitize : String → Result String String) where
  -- A container ID that was built from a pod's UUID without a colon, and from an app name that
  -- SanitizeACName leaves as it is, is parsed into the two.
  pub parse_container_id-build_container_id :
      (uuid app_name : String)
      → Lacks b':' uuid
      → sanitize app_name ≡ ok app_name
      → parse_container_id sanitize (build_container_id uuid app_name) ≡ ok (uuid, app_name)
  unfolding parse_container_id build_container_id
  parse_container_id-build_container_id uuid app_name h k =
      rw (split_two-append ":" uuid app_name h, k) refl

  -- An app name that was built is parsed into the attempt and the sanitized container name.
  pub parse_app_name-build_app_name :
      (attempt : ℕ) (container_name : String) {app_name : String}
      → attempt ≤ max_uint32
      → build_app_name sanitize attempt container_name ≡ ok app_name
      → (s_name : String) × (sanitize container_name ≡ ok s_name)
        × (parse_app_name app_name ≡ ok (attempt, s_name))
  unfolding build_app_name parse_app_name
  parse_app_name-build_app_name attempt container_name {app_name} h e =
      elim (Result-cases (sanitize container_name)) [
        | inr (_, failed) ↦ absurd (ground arith)
        | inl (s_name, sane) ↦
            let built : decimal attempt <> "-" <> s_name ≡ app_name = ground arith in
            (s_name, sane, rw (← built) (parse_app_name-decimal attempt s_name h))
      ]

  parse_container_id-cut :
      (container_id a b : String)
      → cut b':' container_id ≡ some (a, b)
      → parse_container_id sanitize container_id
        ≡ (map_err external (sanitize b) >>= λ app_name. ok (a, app_name))
  unfolding parse_container_id split_two
  parse_container_id-cut container_id a b e = rw (e, split_two) refl

  parse_container_id-uncut :
      (container_id : String)
      → cut b':' container_id ≡ none
      → parse_container_id sanitize container_id ≡ err (invalid_container_id container_id)
  unfolding parse_container_id split_two
  parse_container_id-uncut container_id e = rw (e, split_two) refl

  -- A container ID is parsed into a UUID and an app name exactly if it is the UUID, which has no
  -- colon, then a colon, then a name that SanitizeACName makes into the app name.
  pub parse_container_id_iff :
      (container_id uuid app_name : String)
      → (parse_container_id sanitize container_id ≡ ok (uuid, app_name)) ↔ (
          (rest : String) × (container_id ≡ build_container_id uuid rest)
          × Lacks b':' uuid
          × (sanitize rest ≡ ok app_name))
  unfolding build_container_id
  parse_container_id_iff container_id uuid app_name = (to, from)
    where
      to :
          parse_container_id sanitize container_id ≡ ok (uuid, app_name)
          → (rest : String) × (container_id ≡ build_container_id uuid rest)
            × Lacks b':' uuid
            × (sanitize rest ≡ ok app_name)
      to e = elim (Option-cases (cut b':' container_id)) [
        | inl missing ↦ absurd (ground (arith, parse_container_id-uncut container_id missing))
        | inr ((a, b), found) ↦
            let parts = cut-IsCut b':' container_id a b found in
            let same : a ≡ uuid = ground (arith, parse_container_id-cut container_id a b found) in
            (
              b,
              rw (← same) (IsCut-whole ":" parts),
              rw (← same) parts.first,
              ground (arith, parse_container_id-cut container_id a b found),
            )
      ]

      from :
          (rest : String) × (container_id ≡ build_container_id uuid rest)
            × Lacks b':' uuid
            × (sanitize rest ≡ ok app_name)
          → parse_container_id sanitize container_id ≡ ok (uuid, app_name)
      from (rest, whole, h, k) =
          rw whole
            (parse_container_id-cut _ uuid rest (cut-single-append ":" uuid rest h) ∙ rw k refl)

  -- The error of a container ID with no colon, which no other ID has.
  pub parse_container_id-invalid_iff :
      (container_id : String)
      → (parse_container_id sanitize container_id ≡ err (invalid_container_id container_id))
        ↔ Lacks b':' container_id
  parse_container_id-invalid_iff container_id =
      (to, λ h. parse_container_id-uncut _ (cut-of_Lacks _ _ h))
    where
      to :
          parse_container_id sanitize container_id ≡ err (invalid_container_id container_id)
          → Lacks b':' container_id
      to e = elim (Option-cases (cut b':' container_id)) [
        | inl missing ↦ cut-eq-none _ _ missing
        | inr ((a, b), found) ↦ elim (Result-cases (sanitize b)) [
          | inl (n, sane) ↦ absurd (ground (arith, parse_container_id-cut container_id a b found))
          | inr (e', failed) ↦
              absurd (ground (arith, parse_container_id-cut container_id a b found))
        ]
      ]

parse_app_name-cut :
    (app_name a b : String)
    → cut b'-' app_name ≡ some (a, b)
    → parse_app_name app_name
      ≡ (attempt_of (invalid_app_name app_name) (parse_uint max_uint32 a) >>= λ n. ok (n, b))
unfolding parse_app_name split_two
parse_app_name-cut app_name a b e = rw (e, split_two) refl

parse_app_name-uncut :
    (app_name : String)
    → cut b'-' app_name ≡ none
    → parse_app_name app_name ≡ err (invalid_app_name app_name)
unfolding parse_app_name split_two
parse_app_name-uncut app_name e = rw (e, split_two) refl

attempt_of-ok : (e : Error) (p : Parsed) (n : ℕ) → attempt_of e p ≡ ok n → p ≡ value n
attempt_of-ok e (value m) n h = ground arith
attempt_of-ok e syntax n h = cc
attempt_of-ok e range n h = cc

-- A parsed app name is a decimal uint32, a dash and the container name, and the decimal, which
-- has no dash, is the attempt.
parse_app_name_sound :
    (app_name : String) {attempt : ℕ} {container_name : String}
    → parse_app_name app_name ≡ ok (attempt, container_name)
    → (number : String) × (app_name ≡ number <> "-" <> container_name)
      × Lacks b'-' number
      × (parse_uint max_uint32 number ≡ value attempt)
      × (attempt ≤ max_uint32)
parse_app_name_sound app_name {attempt} {container_name} e =
    elim (Option-cases (cut b'-' app_name)) [
      | inl missing ↦ absurd (ground (arith, parse_app_name-uncut app_name missing))
      | inr ((a, b), found) ↦
          elim (Result-cases (attempt_of (invalid_app_name app_name) (parse_uint max_uint32 a))) [
            | inr (_, failed) ↦ absurd (ground (arith, parse_app_name-cut app_name a b found))
            | inl (n, good) ↦
                let parts = cut-IsCut b'-' app_name a b found in
                let named : b ≡ container_name =
                  ground (arith, parse_app_name-cut app_name a b found) in
                let counted : n ≡ attempt = ground (arith, parse_app_name-cut app_name a b found) in
                let parsed : parse_uint max_uint32 a ≡ value attempt =
                  attempt_of-ok _ _ n good ∙ ap value counted in
                (
                  a,
                  IsCut-whole "-" parts ∙ ap (λ t. a <> "-" <> t) named,
                  parts.first,
                  parsed,
                  parse_uint-le max_uint32 a parsed,
                )
          ]
    ]
