-- ===== src/Runtime/UserArgs.antt =====
-- How the arguments that rktlet/runtime/helpers.go gives to rkt are read: the pairs "key=value"
-- behind `--user-annotation=` or `--user-label=`, in front of the arguments of the app, which begin
-- with `--`.
pub mod Laws
pub mod Plain
use rktlet.Base.{String, Option, none, some, List, [], ◌∷◌, ◌==◌, text_eq, if◌then◌else◌}
use rktlet.Base.Chars.{strip_prefix, cut}
use rktlet.Base.Dict.{Dict}

-- The key up to the first "=", and the value behind it.
abbrev pub key_and_value : Option String → Option (String × String)
key_and_value none = none
key_and_value (some text) = cut b'=' text

abbrev pub pair_of : String → String → Option (String × String)
pair_of prefix arg = key_and_value (strip_prefix prefix arg)

abbrev pub noted : Option (String × String) → Dict → Dict
noted none m = m
noted (some kv) m = kv ∷ m

-- The pairs in the arguments, put before others: of two with one key, the later is found.
abbrev pub pairs_of : String → List String → Dict → Dict
pairs_of prefix [] m = m
pairs_of prefix (arg ∷ args) m = pairs_of prefix args (noted (pair_of prefix arg) m)

abbrev pub annotations_of : List String → Dict → Dict
annotations_of = pairs_of "--user-annotation="

abbrev pub labels_of : List String → Dict → Dict
labels_of = pairs_of "--user-label="

-- The arguments in front of those of the app.
unfoldable pub options_of : List String → List String
options_of [] = []
options_of (arg ∷ args) = let rest = options_of args in if arg == "--" then [] else arg ∷ rest
