-- ===== src/Runtime/UserArgs/Plain.antt =====
-- Arguments that hold no pair and do not begin the arguments of the app.
use rktlet.Base.{
  ◌≡◌, refl, ap, String, ◌<>◌, true, false, none, List, [], ◌∷◌, ◌++◌, map, All, All-mono, ◌==◌,
  text_eq, Bool-cases, eq_iff, inl, inr,
}
use rktlet.Base.Chars.{strip_prefix}
use rktlet.Base.Chars.Laws.{differs, strip_prefix-differs, append-ne}
use rktlet.Base.Dict.{Dict, entries}
use rktlet.Runtime.UserArgs.{annotations_of, labels_of, options_of}
use rktlet.Runtime.UserArgs.Laws.{pairs_of-none}

-- The argument is none of the app's.
abbrev pub IsOption : String → Type 0
IsOption arg = (arg == "--") ≡ false

abbrev pub IsPlain : String → Type 0
IsPlain arg =
    (strip_prefix "--user-annotation=" arg ≡ none)
    × (strip_prefix "--user-label=" arg ≡ none)
    × IsOption arg

pub IsOption-append : (q s : String) → strip_prefix q "--" ≡ none → IsOption (q <> s)
IsOption-append q s h = elim (Bool-cases (q <> s == "--")) [
  | inl same ↦ absurd (append-ne q s "--" h ((eq_iff (q <> s) "--").0 same))
  | inr other ↦ other
]

pub IsPlain-append :
    (q s : String)
    → differs "--user-annotation=" q ≡ true
    → differs "--user-label=" q ≡ true
    → strip_prefix q "--" ≡ none
    → IsPlain (q <> s)
IsPlain-append q s annotation label end = (
  strip_prefix-differs "--user-annotation=" q s annotation,
  strip_prefix-differs "--user-label=" q s label,
  IsOption-append q s end,
)

pub options_of-append :
    (xs ys : List String) → All IsOption xs → options_of (xs ++ ys) ≡ xs ++ options_of ys
unfolding options_of
options_of-append [] ys h = refl
options_of-append (x ∷ xs) ys (other, h) = rw other (ap (λ l. x ∷ l) (options_of-append xs ys h))

pub IsPlain-annotations_of :
    (xs : List String) (m : Dict) → All IsPlain xs → annotations_of xs m ≡ m
IsPlain-annotations_of xs m h = pairs_of-none _ xs m (All-mono (λ x p. p.0) xs h)

pub IsPlain-labels_of : (xs : List String) (m : Dict) → All IsPlain xs → labels_of xs m ≡ m
IsPlain-labels_of xs m h = pairs_of-none _ xs m (All-mono (λ x p. p.1) xs h)

pub IsPlain-IsOption : (xs : List String) → All IsPlain xs → All IsOption xs
IsPlain-IsOption xs h = All-mono (λ x p. p.2) xs h

-- Every argument that is made of an entry begins with the prefix.
pub All-entries {ℓ} :
    (P : String → Type ℓ) (prefix : String)
    → ((s : String) → P (prefix <> s))
    → (d : Dict) → All P (map (λ a. prefix <> a) (entries d))
All-entries P prefix h [] = tt
All-entries P prefix h (kv ∷ d) = (h _, All-entries P prefix h d)
