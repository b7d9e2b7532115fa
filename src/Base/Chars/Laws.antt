-- ===== src/Base/Chars/Laws.antt =====
-- What the functions on texts do: a cut is found exactly where the separator first stands, and a
-- prefix is stripped exactly where it stands.
use Prim.Native.Nat.{ℕ}
use Prim.Native.Char.{Char, code}
use Prim.Native.String.{String, [], ◌∷◌, ◌++◌ as ◌<>◌}
use mathlib.Core.Path.{◌≡◌, refl, sym, ap, ◌∙◌}
use mathlib.Core.Logic.{◌≢◌, inl, inr}
use mathlib.Core.Bool.{Bool, true, false}
use mathlib.Core.Option.{Option, none, some}
use mathlib.Core.List.{[], ◌∷◌}
use native.Mathlib.Omega.{arith}
use text.Mathlib.TextEquality.{Char-path}
use text.Mathlib.TextLemmas.{nil-append, cons-append}
use rktlet.Base.Tests.{◌==◌, nat_eq, ==_iff, Bool-cases, Option-cases, if◌then◌else◌}
use rktlet.Base.Chars.{cut, split_two, strip_prefix, has_prefix, trim_prefix, Lacks}

pub cut-append :
    (sep : ℕ) (s t : String) (c : Char)
    → Lacks sep s
    → code c ≡ sep
    → cut sep (s <> c ∷ t) ≡ some (s, t)
unfolding cut
cut-append sep [] t c h e = rw nil-append (ground arith)
cut-append sep (d ∷ s) t c (ne, h) e = rw cons-append (ground (arith, cut-append sep s t c h e))

-- The parts of a text that is cut.
pub record IsCut (sep : ℕ) (s a b : String) : Type 0 where
  pub at : Char
  pub is_sep : code at ≡ sep
  pub whole : s ≡ a <> at ∷ b
  pub first : Lacks sep a

pub cut-IsCut : (sep : ℕ) (s a b : String) → cut sep s ≡ some (a, b) → IsCut sep s a b
unfolding cut
cut-IsCut sep [] a b e = cc
cut-IsCut sep (c ∷ s) a b e = elim (Bool-cases (code c == sep)) [
  | inl same ↦
      let e' : ◌≡◌ {A = Option (String × String)} (some ("", s)) (some (a, b)) = rw same at e in
      let ea : "" ≡ a = ground arith in
      let eb : s ≡ b = ground arith in
      record {
        at = c;
        is_sep = (==_iff (code c) sep).0 same;
        whole = rw (← ea, ← eb, nil-append) refl;
        first = rw (← ea) tt;
      }
  | inr other ↦ elim (Option-cases (cut sep s)) [
    | inl missing ↦ absurd (ground arith)
    | inr ((a', b'), found) ↦
        let ea : c ∷ a' ≡ a = ground arith in
        let eb : b' ≡ b = ground arith in
        let rest = cut-IsCut sep s a' b' found in
        record {
          at = rest.at;
          is_sep = rest.is_sep;
          whole = rw (← ea, ← eb, cons-append) (ap (λ t. c ∷ t) rest.whole);
          first = rw (← ea) ((λ q. ground arith), rest.first);
        }
  ]
]

pub cut-of_Lacks : (sep : ℕ) (s : String) → Lacks sep s → cut sep s ≡ none
unfolding cut
cut-of_Lacks sep [] h = refl
cut-of_Lacks sep (c ∷ s) (ne, h) = ground (arith, cut-of_Lacks sep s h)

pub cut-eq-none : (sep : ℕ) (s : String) → cut sep s ≡ none → Lacks sep s
unfolding cut
cut-eq-none sep [] e = tt
cut-eq-none sep (c ∷ s) e = elim (Option-cases (cut sep s)) [
  | inl missing ↦ ((λ q. ground arith), cut-eq-none sep s missing)
  | inr (_, found) ↦ absurd (ground arith)
]

pub strip_prefix-append : (p s : String) → strip_prefix p (p <> s) ≡ some s
unfolding strip_prefix
strip_prefix-append [] s = rw nil-append refl
strip_prefix-append (c ∷ p) s = rw cons-append (ground (arith, strip_prefix-append p s))

pub strip_prefix-eq-some : (p s : String) {r : String} → strip_prefix p s ≡ some r → s ≡ p <> r
unfolding strip_prefix
strip_prefix-eq-some [] s {r} e = rw nil-append (ground arith)
strip_prefix-eq-some (c ∷ p) [] e = cc
strip_prefix-eq-some (c ∷ p) (d ∷ s) {r} e = elim (Bool-cases (code c == code d)) [
  | inl same ↦ rw cons-append (
      cc (
        Char-path c d ((==_iff (code c) (code d)).0 same),
        strip_prefix-eq-some p s {r = r} (rw same at e),
      ))
  | inr other ↦ absurd (ground arith)
]

-- A text that begins with a single character.
pub single-append : (c : Char) (t : String) → (c ∷ "") <> t ≡ c ∷ t
single-append c t = cons-append c "" t ∙ ap (λ s. c ∷ s) (nil-append t)

pub cut-single-append :
    (sep : Char) (s t : String)
    → Lacks (code sep) s
    → cut (code sep) (s <> (sep ∷ "") <> t) ≡ some (s, t)
cut-single-append sep s t h = rw (single-append sep t) (cut-append (code sep) s t sep h refl)

pub IsCut-whole : (sep : Char) {s a b : String} → IsCut (code sep) s a b → s ≡ a <> (sep ∷ "") <> b
IsCut-whole sep {b} parts =
    rw (single-append sep b, ← Char-path parts.at sep parts.is_sep) parts.whole

pub split_two-append :
    (sep : Char) (s t : String)
    → Lacks (code sep) s
    → split_two (code sep) (s <> (sep ∷ "") <> t) ≡ s ∷ t ∷ []
unfolding split_two
split_two-append sep s t h = rw (cut-single-append sep s t h, split_two)

pub has_prefix-append : (p s : String) → has_prefix (p <> s) p ≡ true
unfolding has_prefix
has_prefix-append p s = rw (strip_prefix-append p s, has_prefix)

pub trim_prefix-append : (p s : String) → trim_prefix (p <> s) p ≡ s
unfolding trim_prefix
trim_prefix-append p s = rw (strip_prefix-append p s, trim_prefix)

-- Two texts of which neither is a prefix of the other.
unfoldable pub differs : String → String → Bool
differs [] q = false
differs (c ∷ p) [] = false
differs (c ∷ p) (d ∷ q) = if code c == code d then differs p q else true

pub strip_prefix-differs : (p q s : String) → differs p q ≡ true → strip_prefix p (q <> s) ≡ none
unfolding differs strip_prefix
strip_prefix-differs [] q s h = cc
strip_prefix-differs (c ∷ p) [] s h = cc
strip_prefix-differs (c ∷ p) (d ∷ q) s h =
    rw (cons-append) (ground (arith, strip_prefix-differs p q s))

-- A text that begins with what another does not begin with is another.
pub append-ne : (q s t : String) → strip_prefix q t ≡ none → q <> s ≢ t
append-ne q s t h e =
    let same = sym (strip_prefix-append q s) ∙ ap (λ u. strip_prefix q u) e ∙ h in
    absurd (ground arith)
