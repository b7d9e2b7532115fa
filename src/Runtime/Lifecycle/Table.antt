-- ===== src/Runtime/Lifecycle/Table.antt =====
-- Tables of apps, and the IDs that they give.
use rktlet.Base.{
  ◌≡◌, refl, sym, ap, ◌∙◌, inl, inr, ℕ, String, true, List, [], ◌∷◌, ◌==◌, text_eq, All, Has,
  Result, ok, some-injective, Bool-cases, arith, eq_iff,
}
use rktlet.Base.Chars.{Lacks, cut}
use rktlet.Base.Chars.Laws.{cut-single-append}
use rktlet.Runtime.AppName.{build_container_id, parse_container_id, parse_app_name}
use rktlet.Runtime.AppName.RoundTrip.{parse_container_id-build_container_id}
use rktlet.Runtime.Lifecycle.{App, same_app, without_app, without_id, ids_of}

pub same_app_iff : (a b : App) → (same_app a b ≡ true → a ≡ b) × (a ≡ b → same_app a b ≡ true)
same_app_iff a b = (
  λ e.
      let pods : a.0 ≡ b.0 = ground (arith, eq_iff a.0 b.0) in
      let names : a.1 ≡ b.1 = ground (arith, eq_iff a.1 b.1) in (λ i. (pods i, names i)),
  λ e. ground (arith, (eq_iff a.0 b.0).1 (ap (λ x. x.0) e), (eq_iff a.1 b.1).1 (ap (λ x. x.1) e)),
)

module _ (sanitize : String → Result String String) where
  -- An app whose pod and name can be read back from the ID of its container, and whose attempt
  -- and container name can be read back from its name.
  pub record IsSound (app : App) : Type 0 where
    pub clean : Lacks b':' app.0
    pub sane : sanitize app.1 ≡ ok app.1
    pub parsed : (attempt : ℕ) × (name : String) × (parse_app_name app.1 ≡ ok (attempt, name))

  abbrev pub IsDistinct : List App → Type 0
  IsDistinct [] = Unit
  IsDistinct (a ∷ apps) = (¬ Has a apps) × IsDistinct apps

  -- A table in which every app is sound and none stands twice.
  abbrev pub IsTable : List App → Type 0
  IsTable apps = All IsSound apps × IsDistinct apps

  abbrev pub id_of : App → String
  id_of app = build_container_id app.0 app.1

  -- The ID tells the pod, which has no colon, from the name.
  id_of-clean : (a b : App) → Lacks b':' a.0 → Lacks b':' b.0 → id_of a ≡ id_of b → a ≡ b
  unfolding build_container_id
  id_of-clean a b h k e =
      some-injective
        (sym (cut-single-append ":" a.0 a.1 h) ∙ ap (cut b':') e ∙ cut-single-append ":" b.0 b.1 k)

  pub parse-id_of : (app : App) → IsSound app → parse_container_id sanitize (id_of app) ≡ ok app
  parse-id_of app h = parse_container_id-build_container_id sanitize app.0 app.1 h.clean h.sane

  pub id_of_injective : (a b : App) → IsSound a → IsSound b → id_of a ≡ id_of b → a ≡ b
  id_of_injective a b h k e = id_of-clean a b h.clean k.clean e

  id_of-same : (a b : App) → Lacks b':' a.0 → Lacks b':' b.0 → (id_of a == id_of b) ≡ same_app a b
  id_of-same a b h k = elim (Bool-cases (same_app a b)) [
    | inl same ↦
        (eq_iff (id_of a) (id_of b)).1 (ap (λ x. id_of x) ((same_app_iff a b).0 same)) ∙ sym same
    | inr other ↦ elim (Bool-cases (id_of a == id_of b)) [
      | inr apart ↦ apart ∙ sym other
      | inl joined ↦
          let same : same_app a b ≡ true =
            (same_app_iff a b).1 (id_of-clean a b h k ((eq_iff (id_of a) (id_of b)).0 joined)) in
          absurd (ground arith)
    ]
  ]

  -- Taking an app out of the table takes its ID out of the IDs.
  pub ids_of-without_app :
      (app : App) (apps : List App)
      → Lacks b':' app.0
      → All IsSound apps
      → ids_of (without_app app apps) ≡ without_id (id_of app) (ids_of apps)
  ids_of-without_app app [] h all = refl
  ids_of-without_app app (a ∷ apps) h all = elim (Bool-cases (same_app a app)) [
    | inl same ↦
        rw (same, id_of-same a app all.0.clean h ∙ same) (ids_of-without_app app apps h all.1)
    | inr other ↦
        rw (other, id_of-same a app all.0.clean h ∙ other)
          (ap (λ l. id_of a ∷ l) (ids_of-without_app app apps h all.1))
  ]

  pub Has-ids_of :
      (id : String) (apps : List App)
      → Has id (ids_of apps)
      → (app : App) × Has app apps × (id_of app ≡ id)
  Has-ids_of id [] has = absurd has
  Has-ids_of id (a ∷ apps) (inl here) = (a, inl refl, here)
  Has-ids_of id (a ∷ apps) (inr later) =
      let (app, has, same) = Has-ids_of id apps later in (app, inr has, same)

  pub Has-ids_of_app : (app : App) (apps : List App) → Has app apps → Has (id_of app) (ids_of apps)
  Has-ids_of_app app (a ∷ apps) (inl here) = inl (ap (λ x. id_of x) here)
  Has-ids_of_app app (a ∷ apps) (inr later) = inr (Has-ids_of_app app apps later)
  Has-ids_of_app app [] has = absurd has

  pub IsSound-of_Has : (app : App) (apps : List App) → All IsSound apps → Has app apps → IsSound app
  IsSound-of_Has app (a ∷ apps) all (inl here) = rw (← here) all.0
  IsSound-of_Has app (a ∷ apps) all (inr later) = IsSound-of_Has app apps all.1 later
  IsSound-of_Has app [] all has = absurd has

  Has-without_app : (x app : App) (apps : List App) → Has x (without_app app apps) → Has x apps
  Has-without_app x app [] has = absurd has
  Has-without_app x app (a ∷ apps) has = elim (Bool-cases (same_app a app)) [
    | inl same ↦ inr (Has-without_app x app apps (rw same at has))
    | inr other ↦ elim (rw other at has) as (λ _. Has x (a ∷ apps)) [
      | inl here ↦ inl here
      | inr later ↦ inr (Has-without_app x app apps later)
    ]
  ]

  pub without_app-IsTable :
      (app : App) (apps : List App) → IsTable apps → IsTable (without_app app apps)
  without_app-IsTable app [] h = h
  without_app-IsTable app (a ∷ apps) (all, distinct) =
      let (rest_all, rest_distinct) = without_app-IsTable app apps (all.1, distinct.1) in
      elim (Bool-cases (same_app a app)) [
        | inl same ↦ rw same (rest_all, rest_distinct)
        | inr other ↦ rw other (
          (all.0, rest_all),
          ((λ has. distinct.0 (Has-without_app a app apps has)), rest_distinct),
        )
      ]
