-- ===== src/Cli/Systemd/Laws.antt =====
-- A slice name has no slash and ends in ".slice", and nothing is started for any other cgroup.
use Prim.Native.String.{[], ◌∷◌}
use text.Mathlib.TextLemmas.{append-nil, append_assoc}
use mathlib.Core.Path.{subst}
use rktlet.Base.{
  ℕ, ◌≡◌, refl, sym, ◌∙◌, ◌⊎◌, ◌↔◌, code, String, ◌<>◌, true, false, ◌==◌, nat_eq, text_eq,
  Bool-cases, inl, inr, ok, err, nil-append, cons-append, arith,
}
use rktlet.Base.Chars.{has_suffix, Lacks}
use rktlet.Errors.{not_a_slice}
use rktlet.Cli.Systemd.{after_last_slash, strip_slashes, path_base, cgroup_parent_to_slice_name}

Lacks-append : (sep : ℕ) (s t : String) → Lacks sep s → Lacks sep t → Lacks sep (s <> t)
Lacks-append sep [] t h k = rw nil-append k
Lacks-append sep (c ∷ s) t (ne, h) k = rw cons-append (ne, Lacks-append sep s t h k)

after_last_slash-Lacks :
    (u s whole : String) → whole ≡ u <> s → Lacks b'/' u → Lacks b'/' (after_last_slash whole s)
unfolding after_last_slash
after_last_slash-Lacks u [] whole e h = rw (e, append-nil) h
after_last_slash-Lacks u (c ∷ s) whole e h = elim (Bool-cases (code c == b'/')) [
  | inl slash ↦ rw slash (after_last_slash-Lacks "" s s (sym (nil-append s)) tt)
  | inr other ↦ rw other (
      after_last_slash-Lacks (u <> c ∷ "") s whole
        (e ∙ rw (append_assoc u (c ∷ "") s, cons-append c "" s, nil-append) refl)
        (Lacks-append b'/' u (c ∷ "") h ((λ q. ground arith), tt)))
]

-- The base of a path has no slash, unless it is "/" itself.
path_base-Lacks : (path : String) → (path_base path ≡ "/") ⊎ Lacks b'/' (path_base path)
unfolding path_base
path_base-Lacks path = elim (Bool-cases (path == "")) [
  | inl empty ↦ rw empty (inr ((λ q. ground arith), tt))
  | inr full ↦
      rw full
        (elim (Bool-cases (after_last_slash (strip_slashes path) (strip_slashes path) == "")) [
          | inl none_left ↦ rw none_left (inl refl)
          | inr some_left ↦ rw some_left (
              inr (
                after_last_slash-Lacks "" (strip_slashes path) (strip_slashes path)
                  (sym (nil-append _)) tt))
        ])
]

slash-ne-slice : (base : String) → base ≡ "/" → has_suffix base ".slice" ≡ true → ⊥
unfolding has_suffix
slash-ne-slice base e h =
    let no_suffix : has_suffix "/" ".slice" ≡ true =
      subst (λ b. has_suffix b ".slice" ≡ true) e h in
    cc

slice-Lacks :
    (path : String) → has_suffix (path_base path) ".slice" ≡ true → Lacks b'/' (path_base path)
slice-Lacks path h = elim (path_base-Lacks path) [
  | inl root ↦ absurd (slash-ne-slice _ root h)
  | inr lacks ↦ lacks
]

-- A cgroup parent is converted exactly if the base of its path ends in ".slice", into that base,
-- and then the slice name has no slash. Any other cgroup parent is refused and named in the error.
pub cgroup_parent_to_slice_name_lem :
    (cgroup_parent : String)
    → ((slice : String)
        → (cgroup_parent_to_slice_name cgroup_parent ≡ ok slice) ↔ (
            (slice ≡ path_base cgroup_parent)
            × (has_suffix slice ".slice" ≡ true)
            × Lacks b'/' slice))
      × ((cgroup_parent_to_slice_name cgroup_parent ≡ err (not_a_slice cgroup_parent))
          ↔ (has_suffix (path_base cgroup_parent) ".slice" ≡ false))
unfolding cgroup_parent_to_slice_name
cgroup_parent_to_slice_name_lem cgroup_parent = (λ slice. (to slice, from slice), ground arith)
  where
    to :
        (slice : String)
        → cgroup_parent_to_slice_name cgroup_parent ≡ ok slice
        → (slice ≡ path_base cgroup_parent) × (has_suffix slice ".slice" ≡ true) × Lacks b'/' slice
    to slice e = elim (Bool-cases (has_suffix (path_base cgroup_parent) ".slice")) [
      | inr other ↦ absurd (ground arith)
      | inl suffixed ↦
          let same : path_base cgroup_parent ≡ slice = ground arith in
          (sym same, rw (← same) suffixed, rw (← same) (slice-Lacks cgroup_parent suffixed))
    ]

    from :
        (slice : String)
        → (slice ≡ path_base cgroup_parent) × (has_suffix slice ".slice" ≡ true) × Lacks b'/' slice
        → cgroup_parent_to_slice_name cgroup_parent ≡ ok slice
    from slice (same, suffixed, lacks) = ground arith
