-- ===== src/Base/Chars/Split.antt =====
-- Splitting at a separator: no part holds it, there is at least one part, and the parts joined by
-- it are the text.
use Prim.Native.Nat.{ℕ}
use Prim.Native.Char.{Char, code}
use Prim.Native.String.{String, [], ◌∷◌, ◌++◌ as ◌<>◌}
use mathlib.Core.Path.{◌≡◌, refl, ap, ◌∙◌}
use mathlib.Core.Logic.{◌≢◌, inl, inr}
use mathlib.Core.List.{List, [], ◌∷◌}
use native.Mathlib.Omega.{arith}
use text.Mathlib.TextEquality.{Char-path}
use text.Mathlib.TextLemmas.{nil-append, cons-append}
use rktlet.Base.Tests.{◌==◌, nat_eq, ==_iff, Bool-cases}
use rktlet.Base.Lists.{All, join}
use rktlet.Base.Chars.{split, push_head, Lacks}
use rktlet.Base.Chars.Laws.{single-append}

push_head-ne-nil : (c : Char) (parts : List String) → push_head c parts ≢ []
push_head-ne-nil c [] e = cc
push_head-ne-nil c (s ∷ r) e = cc

pub split-ne-nil : (sep : ℕ) (s : String) → split sep s ≢ []
unfolding split
split-ne-nil sep [] e = cc
split-ne-nil sep (c ∷ s) e = elim (Bool-cases (code c == sep)) [
  | inl here ↦ let e' : ◌≡◌ {A = List String} ("" ∷ split sep s) [] = rw here at e in cc
  | inr other ↦ push_head-ne-nil c (split sep s) (rw other at e)
]

All-push_head :
    (sep : ℕ) (c : Char) (parts : List String)
    → code c ≢ sep
    → All (Lacks sep) parts
    → All (Lacks sep) (push_head c parts)
All-push_head sep c [] ne h = ((ne, tt), tt)
All-push_head sep c (s ∷ r) ne (h, k) = ((ne, h), k)

pub split-Lacks : (sep : ℕ) (s : String) → All (Lacks sep) (split sep s)
unfolding split
split-Lacks sep [] = (tt, tt)
split-Lacks sep (c ∷ s) = elim (Bool-cases (code c == sep)) [
  | inl here ↦ rw here (tt, split-Lacks sep s)
  | inr other ↦ rw other (All-push_head sep c (split sep s) (λ q. ground arith) (split-Lacks sep s))
]

join-push_head :
    (sep : String) (c : Char) (parts : List String)
    → parts ≢ []
    → join sep (push_head c parts) ≡ c ∷ join sep parts
join-push_head sep c [] h = absurd (h refl)
join-push_head sep c (s ∷ []) h = refl
join-push_head sep c (s ∷ t ∷ r) h = cons-append c s _

join-cons :
    (sep s : String) (parts : List String)
    → parts ≢ []
    → join sep (s ∷ parts) ≡ s <> sep <> join sep parts
join-cons sep s [] h = absurd (h refl)
join-cons sep s (t ∷ r) h = refl

pub join-split : (sep : Char) (s : String) → join (sep ∷ "") (split (code sep) s) ≡ s
unfolding split
join-split sep [] = refl
join-split sep (c ∷ s) = elim (Bool-cases (code c == code sep)) [
  | inl here ↦ rw here (
      join-cons (sep ∷ "") "" (split (code sep) s) (split-ne-nil (code sep) s)
      ∙ nil-append _
      ∙ single-append sep _
      ∙ rw (join-split sep s, Char-path c sep ((==_iff _ _).0 here)) refl)
  | inr other ↦ rw other (
      join-push_head (sep ∷ "") c (split (code sep) s) (split-ne-nil (code sep) s)
      ∙ ap (λ t. c ∷ t) (join-split sep s))
]
