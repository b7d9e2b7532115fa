-- ===== src/Base/Chars.antt =====
-- The functions of Go's `strings` that the program calls. A text is a list of code points.
pub mod Laws
pub mod Split
use Prim.Native.Nat.{ℕ}
use Prim.Native.Char.{Char, code}
use Prim.Native.String.{String, [], ◌∷◌}
use mathlib.Core.Logic.{◌≢◌}
use mathlib.Core.Bool.{Bool, true, false, not, ◌&&◌, ◌||◌}
use mathlib.Core.Option.{Option, none, some}
use mathlib.Core.Option
use mathlib.Core.List.{List, [], ◌∷◌}
use rktlet.Base.Tests.{◌==◌, nat_eq, text_eq, leb, if◌then◌else◌}

-- The text before the first separator and the text after it.
unfoldable pub cut : ℕ → String → Option (String × String)
cut sep [] = none
cut sep (c ∷ s) =
    if code c == sep then some ("", s) else Option.map (λ (a, b). (c ∷ a, b)) (cut sep s)

-- strings.SplitN(s, sep, 2)
unfoldable pub split_two : ℕ → String → List String
unfolding cut
split_two sep s = elim (cut sep s) [ none ↦ s ∷ [] | some (a, b) ↦ a ∷ b ∷ [] ]

abbrev push_head : Char → List String → List String
push_head c [] = (c ∷ "") ∷ []
push_head c (s ∷ r) = (c ∷ s) ∷ r

-- strings.Split(s, sep): never empty.
unfoldable pub split : ℕ → String → List String
split sep [] = "" ∷ []
split sep (c ∷ s) = let rest = split sep s in if code c == sep then "" ∷ rest else push_head c rest

-- The text after a prefix.
unfoldable pub strip_prefix : String → String → Option String
strip_prefix [] s = some s
strip_prefix (c ∷ p) [] = none
strip_prefix (c ∷ p) (d ∷ s) = if code c == code d then strip_prefix p s else none

-- strings.HasPrefix(s, p), strings.TrimPrefix(s, p)
unfoldable pub has_prefix : String → String → Bool
unfolding strip_prefix
has_prefix s p = elim (strip_prefix p s) [ none ↦ false | some r ↦ true ]

unfoldable pub trim_prefix : String → String → String
unfolding strip_prefix
trim_prefix s p = elim (strip_prefix p s) [ none ↦ s | some r ↦ r ]

-- strings.HasSuffix(s, p)
unfoldable pub has_suffix : String → String → Bool
has_suffix [] p = p == ""
has_suffix (c ∷ s) p = (c ∷ s) == p || has_suffix s p

abbrev any_of : ℕ → List ℕ → Bool
any_of n [] = false
any_of n (m ∷ ms) = n == m || any_of n ms

abbrev other_spaces : List ℕ
other_spaces = b' ' ∷ 0x85 ∷ 0xa0 ∷ 0x1680 ∷ 0x2028 ∷ 0x2029 ∷ 0x202f ∷ 0x205f ∷ 0x3000 ∷ []

-- unicode.IsSpace, the white space that strings.TrimSpace removes
unfoldable pub is_space : Char → Bool
is_space c =
    (leb b'\t' (code c) && leb (code c) b'\r')
    || any_of (code c) other_spaces
    || (leb 0x2000 (code c) && leb (code c) 0x200a)

unfoldable pub trim_left : String → String
unfolding is_space
trim_left [] = ""
trim_left (c ∷ s) = let rest = trim_left s in if is_space c then rest else c ∷ s

unfoldable pub trim_right : String → String
unfolding is_space
trim_right [] = ""
trim_right (c ∷ s) = let rest = trim_right s in if is_space c && rest == "" then "" else c ∷ rest

-- strings.TrimSpace
unfoldable pub trim_space : String → String
unfolding trim_left trim_right
trim_space s = trim_right (trim_left s)

-- No character of the text is `sep`.
abbrev pub Lacks : ℕ → String → Type 0
Lacks sep [] = Unit
Lacks sep (c ∷ s) = (code c ≢ sep) × Lacks sep s

-- The same, as a test.
unfoldable pub lacks : ℕ → String → Bool
lacks sep [] = true
lacks sep (c ∷ s) = not (code c == sep) && lacks sep s
