-- ===== src/Runtime/Seccomp/Laws.antt =====
-- Which profile is in force, and what becomes of it.
use text.Mathlib.TextLemmas.{cons≢nil}
use rktlet.Base.{
  ◌≡◌, refl, ◌↔◌, ◌≢◌, ◌⊎◌, inl, inr, Option-cases, Bool-cases, String, ◌<>◌, Option, none, some,
  ◌==◌, text_eq, if◌then◌else◌, ok, err, arith, eq_iff,
}
use rktlet.Base.Dict.{Dict, lookup}
use rktlet.Errors.{seccomp_not_supported}
use rktlet.Runtime.Seccomp.{
  default_seccomp, seccomp_arg_of, annotated_profile, generate_seccomp_arg,
  seccomp_container_key_prefix, seccomp_pod_key,
}

-- The first of three that is there: the profile of the security context, the annotation of the
-- container and the annotation of the pod; "" with none of them.
abbrev pub in_force : String → Option String → Option String → String
in_force profile container pod =
    if profile == ""
    then (elim container [ some c ↦ c | none ↦ elim pod [ some p ↦ p | none ↦ "" ] ])
    else profile

default-ne-nil : ◌≢◌ {A = String} default_seccomp ""
default-ne-nil = cons≢nil

docker-ne-nil : ◌≢◌ {A = String} "docker/default" ""
docker-ne-nil = cons≢nil

docker-ne-unconfined : ◌≢◌ {A = String} "docker/default" "unconfined"
docker-ne-unconfined e = let same = (eq_iff "docker/default" "unconfined").1 e in cc

seccomp_arg_of-eq-default_iff :
    (profile : String)
    → (seccomp_arg_of profile ≡ ok default_seccomp) ↔ ((profile ≡ "") ⊎ (profile ≡ "unconfined"))
unfolding seccomp_arg_of
seccomp_arg_of-eq-default_iff profile = ground (
  arith,
  default-ne-nil,
  eq_iff profile "",
  eq_iff profile "unconfined",
  eq_iff profile "docker/default",
)

seccomp_arg_of-eq-nil_iff :
    (profile : String) → (seccomp_arg_of profile ≡ ok "") ↔ (profile ≡ "docker/default")
unfolding seccomp_arg_of
seccomp_arg_of-eq-nil_iff profile = ground (
  arith,
  default-ne-nil,
  docker-ne-nil,
  docker-ne-unconfined,
  eq_iff profile "",
  eq_iff profile "unconfined",
  eq_iff profile "docker/default",
)

seccomp_arg_of-err_iff :
    (p profile : String)
    → (seccomp_arg_of p ≡ err (seccomp_not_supported profile))
      ↔ ((p ≡ profile) × (profile ≢ "") × (profile ≢ "unconfined") × (profile ≢ "docker/default"))
unfolding seccomp_arg_of
seccomp_arg_of-err_iff p profile =
    ground (arith, eq_iff p "", eq_iff p "unconfined", eq_iff p "docker/default")

generate_seccomp_arg-eq-seccomp_arg_of :
    (seccomp_profile : String) (annotations : Dict) (container_name : String)
    → generate_seccomp_arg seccomp_profile annotations container_name
      ≡ seccomp_arg_of (
          in_force seccomp_profile
            (lookup (seccomp_container_key_prefix <> container_name) annotations)
            (lookup seccomp_pod_key annotations))
unfolding generate_seccomp_arg annotated_profile
generate_seccomp_arg-eq-seccomp_arg_of seccomp_profile annotations container_name =
    elim (Bool-cases (seccomp_profile == "")) [
      | inr given ↦ rw given refl
      | inl empty ↦
          rw empty
            (elim (Option-cases
              (lookup (seccomp_container_key_prefix <> container_name) annotations)) [
                | inr (c, found) ↦ rw found refl
                | inl missing ↦
                    rw missing (elim (Option-cases (lookup seccomp_pod_key annotations)) [
                      | inr (p, found) ↦ rw found refl
                      | inl none_at_all ↦ rw none_at_all (unfold seccomp_arg_of in refl)
                    ])
              ])
    ]

module _ (seccomp_profile : String) (annotations : Dict) (container_name : String) where
  abbrev pub profile_in_force : String
  profile_in_force =
      in_force seccomp_profile (lookup (seccomp_container_key_prefix <> container_name) annotations)
        (lookup seccomp_pod_key annotations)

  -- The profile in force is that of the security context if it is not empty, or else the
  -- annotation of the container, or else that of the pod. The argument is the default one exactly
  -- if that profile is empty, missing or "unconfined"; it is the empty text exactly if the profile
  -- is "docker/default"; and the container is refused, with the profile named in the error,
  -- exactly if it is any other.
  pub generate_seccomp_arg_lem :
      ((generate_seccomp_arg seccomp_profile annotations container_name ≡ ok default_seccomp)
        ↔ ((profile_in_force ≡ "") ⊎ (profile_in_force ≡ "unconfined")))
      × ((generate_seccomp_arg seccomp_profile annotations container_name ≡ ok "")
          ↔ (profile_in_force ≡ "docker/default"))
      × ((profile : String)
          → (generate_seccomp_arg seccomp_profile annotations container_name
              ≡ err (seccomp_not_supported profile))
            ↔ ((profile_in_force ≡ profile)
                × (profile ≢ "")
                × (profile ≢ "unconfined")
                × (profile ≢ "docker/default")))
  generate_seccomp_arg_lem =
      rw (generate_seccomp_arg-eq-seccomp_arg_of seccomp_profile annotations container_name) (
        seccomp_arg_of-eq-default_iff profile_in_force,
        seccomp_arg_of-eq-nil_iff profile_in_force,
        seccomp_arg_of-err_iff profile_in_force,
      )
