-- ===== src/Runtime/AppAdd/Laws.antt =====
-- What the command that adds an app holds, and which requests lead to none.
use rktlet.Base.{
  ◌≡◌, refl, sym, ap, ◌∙◌, ◌≢◌, inl, inr, String, Option, some, List, ◌++◌, text_eq, Result, ok,
  err, Result-cases, Option-cases, arith, eq_iff,
}
use rktlet.Errors.{Error, user_and_username, nil_dereference}
use rktlet.Host.{Host}
use rktlet.Host.Laws.{and_then-ok, and_then-err}
use rktlet.Runtime.AppAdd.{
  generate_app_add_command, security_args, user_args, linux_args, confinement_args, followed_by,
  resources_of, image_of,
}
use rktlet.Runtime.AppAdd.Types.{CapsLib, ContainerConfig, LinuxResources, SecurityContext}
use rktlet.Runtime.AppName.{build_app_name}

followed_by-eq-ok :
    (a b : Result Error (List String)) {args : List String}
    → followed_by a b ≡ ok args
    → (front : List String) × (rest : List String) × (a ≡ ok front)
      × (b ≡ ok rest)
      × (front ++ rest ≡ args)
followed_by-eq-ok (err e) b h = absurd (ground arith)
followed_by-eq-ok (ok front) (err e) h = absurd (ground arith)
followed_by-eq-ok (ok front) (ok rest) h = (front, rest, refl, refl, ground arith)

user_args-both :
    (uid : _) (username : String)
    → username ≢ ""
    → user_args (some uid) username ≡ err user_and_username
unfolding user_args
user_args-both uid username h = ground (arith, eq_iff username "")

module _ (caps : CapsLib) where
  security_args-both :
      (config : ContainerConfig) (sc : SecurityContext) {uid : _} {args : List String}
      → sc.run_as_user ≡ some uid
      → sc.run_as_username ≢ ""
      → security_args caps config sc ≢ ok args
  unfolding security_args
  security_args-both config sc {uid} given named e =
      let (front, rest, _, later, _) = followed_by-eq-ok (confinement_args caps config sc) _ e in
      let (user, _, done, _, _) = followed_by-eq-ok _ _ later in
      absurd (ground (arith, user_args-both uid sc.run_as_username named, given))

  linux_args-both :
      (config : ContainerConfig) (resources : Option LinuxResources) (sc : SecurityContext)
      {uid : _} {args : List String}
      → sc.run_as_user ≡ some uid
      → sc.run_as_username ≢ ""
      → linux_args caps config (some (record { resources = resources; security_context = some sc }))
        ≢ ok args
  unfolding linux_args
  linux_args-both config resources sc given named e =
      let (front, rest, _, later, _) =
        followed_by-eq-ok (ok (resources_of resources)) (security_args caps config sc) e in
      security_args-both config sc given named later

  module _ (h : Host) (sanitize : String → Result String String) where
    -- A container that is to run as a user given by number and by name is refused, and nothing has
    -- been made for its mounts then.
    pub generate_app_add_command-both :
        (sandbox_id : String) (config : ContainerConfig) (image_id : String) (s : h.State)
        (resources : Option LinuxResources) (sc : SecurityContext) {uid : _}
        → config.linux ≡ some (record { resources = resources; security_context = some sc })
        → sc.run_as_user ≡ some uid
        → sc.run_as_username ≢ ""
        → (e : Error) × (generate_app_add_command h sanitize caps sandbox_id config image_id s
            ≡ (err e, s))
    unfolding generate_app_add_command
    generate_app_add_command-both sandbox_id config image_id s resources sc linux given named =
        elim (Option-cases config.image) [
          | inl missing ↦ (nil_dereference, and_then-err _ (λ i. (image_of (missing i), s)))
          | inr (image, there) ↦
              elim (Result-cases (build_app_name sanitize config.attempt config.name)) [
                | inr (e, failed) ↦ (
                  e,
                  and_then-ok _ (λ i. (image_of (there i), s))
                      ∙ and_then-err _ (λ i. (failed i, s)),
                )
                | inl (app_name, built) ↦
                    elim (Result-cases (linux_args caps config config.linux)) [
                      | inl (args, fine) ↦ absurd (
                          linux_args-both config resources sc given named
                            (ap (λ l. linux_args caps config l) (sym linux) ∙ fine))
                      | inr (e, failed) ↦ (
                        e,
                        and_then-ok _ (λ i. (image_of (there i), s))
                            ∙ and_then-ok _ (λ i. (built i, s))
                            ∙ and_then-err _ (λ i. (failed i, s)),
                      )
                    ]
              ]
        ]
