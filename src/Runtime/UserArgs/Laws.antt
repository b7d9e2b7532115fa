-- ===== src/Runtime/UserArgs/Laws.antt =====
-- The pairs of a map that stands in the arguments are read back.
use rktlet.Base.{
  ◌≡◌, refl, sym, ap, ◌∙◌, String, ◌<>◌, true, false, Option, none, some, List, [], ◌∷◌, ◌++◌, ◌⊎◌,
  inl, inr, map, All, ◌==◌, text_eq, Bool-cases, eq_iff,
}
use rktlet.Base.Chars.{strip_prefix, Lacks}
use rktlet.Base.Chars.Laws.{strip_prefix-append, cut-single-append}
use rktlet.Base.Dict.{Dict, lookup, entries}
use rktlet.Runtime.UserArgs.{key_and_value, pair_of, noted, pairs_of}

pub pairs_of-append :
    (prefix : String) (xs ys : List String) (m : Dict)
    → pairs_of prefix (xs ++ ys) m ≡ pairs_of prefix ys (pairs_of prefix xs m)
pairs_of-append prefix [] ys m = refl
pairs_of-append prefix (x ∷ xs) ys m = pairs_of-append prefix xs ys (noted (pair_of prefix x) m)

-- Arguments without the prefix hold no pair.
pub pairs_of-none :
    (prefix : String) (xs : List String) (m : Dict)
    → All (λ x. strip_prefix prefix x ≡ none) xs
    → pairs_of prefix xs m ≡ m
pairs_of-none prefix [] m h = refl
pairs_of-none prefix (x ∷ xs) m (plain, h) =
    ap (λ o. pairs_of prefix xs (noted (key_and_value o) m)) plain ∙ pairs_of-none prefix xs m h

pub pair_of-argument :
    (prefix key value : String)
    → Lacks b'=' key
    → pair_of prefix (prefix <> (key <> "=" <> value)) ≡ some (key, value)
pair_of-argument prefix key value clean =
    ap key_and_value (strip_prefix-append prefix (key <> "=" <> value))
    ∙ cut-single-append "=" key value clean

-- The entries of a map, the first deepest.
abbrev pub pushed : Dict → Dict → Dict
pushed [] m = m
pushed (kv ∷ d) m = pushed d (kv ∷ m)

-- A Go map: its keys differ, and none holds a "=", behind which rkt reads the value.
abbrev pub IsMap : Dict → Type 0
IsMap [] = Unit
IsMap ((k, v) ∷ d) = (lookup k d ≡ none) × Lacks b'=' k × IsMap d

pub pairs_of-entries :
    (prefix : String) (d m : Dict)
    → IsMap d
    → pairs_of prefix (map (λ a. prefix <> a) (entries d)) m ≡ pushed d m
pairs_of-entries prefix [] m h = refl
pairs_of-entries prefix ((k, v) ∷ d) m (_, clean, h) =
    ap (λ o. pairs_of prefix (map (λ a. prefix <> a) (entries d)) (noted o m))
      (pair_of-argument prefix k v clean)
    ∙ pairs_of-entries prefix d ((k, v) ∷ m) h

-- The first value, or else the second.
abbrev pub or_else : Option String → Option String → Option String
or_else none later = later
or_else (some v) later = some v

pub lookup-pushed :
    (key : String) (d m : Dict)
    → IsMap d
    → lookup key (pushed d m) ≡ or_else (lookup key d) (lookup key m)
unfolding lookup
lookup-pushed key [] m h = refl
lookup-pushed key ((k, v) ∷ d) m (fresh, _, h) =
    lookup-pushed key d ((k, v) ∷ m) h ∙ joined (Bool-cases (k == key))
  where
    joined :
        (k == key ≡ true) ⊎ (k == key ≡ false)
        → or_else (lookup key d) (lookup key ((k, v) ∷ m))
          ≡ or_else (lookup key ((k, v) ∷ d)) (lookup key m)
    joined (inl same) =
        let missing : lookup key d ≡ none =
          ap (λ j. lookup j d) (sym ((eq_iff k key).0 same)) ∙ fresh in
        rw (same, missing) refl
    joined (inr other) = rw other refl

pub lookup-other :
    (key k v : String) (m : Dict) → k == key ≡ false → lookup key ((k, v) ∷ m) ≡ lookup key m
unfolding lookup
lookup-other key k v m other = rw other refl
