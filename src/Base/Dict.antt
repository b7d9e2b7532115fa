-- ===== src/Base/Dict.antt =====
-- A Go map from texts to texts. The order of the list is that in which `range` visits the map.
use Prim.Native.String.{String, ◌++◌ as ◌<>◌}
use mathlib.Core.Path.{◌≡◌}
use mathlib.Core.Option.{Option, none, some}
use mathlib.Core.List.{List, [], ◌∷◌, map}
use native.Mathlib.Omega.{arith}
use text.Mathlib.TextEquality.{eq_iff}
use rktlet.Base.Tests.{◌==◌, text_eq, if◌then◌else◌}

abbrev pub Dict : Type 0
Dict = List (String × String)

-- v, ok := m[k]
unfoldable pub lookup : String → Dict → Option String
lookup k [] = none
lookup k ((j, v) ∷ m) = if j == k then some v else lookup k m

-- m[k], which is "" for a missing key
unfoldable pub get : String → Dict → String
unfolding lookup
get k m = elim (lookup k m) [ none ↦ "" | some v ↦ v ]

-- delete(m, k)
unfoldable pub delete : String → Dict → Dict
delete k [] = []
delete k ((j, v) ∷ m) = let rest = delete k m in if j == k then rest else (j, v) ∷ rest

-- "%s=%s" for each entry, in the order of `range`
abbrev pub entries : Dict → List String
entries m = map (λ (k, v). k <> "=" <> v) m

pub lookup-delete :
    (k j : String) (m : Dict) → lookup j (delete k m) ≡ (if k == j then none else lookup j m)
unfolding lookup delete
lookup-delete k j [] = ground arith
lookup-delete k j ((i, v) ∷ m) =
    ground (arith, eq_iff i k, eq_iff i j, eq_iff k j, lookup-delete k j m)
