-- ===== src/Cli/StopErrors.antt =====
-- rktlet/cli/errors.go: the two errors of `rkt stop` that are told by a regular expression. An error
-- is its text, and none if it is nil.
pub mod Laws
use Prim.Native.String.{[], ◌∷◌}
use rktlet.Base.{
  Char, code, String, Bool, true, false, ◌||◌, not, ◌&&◌, Option, none, some, ◌==◌, nat_eq, text_eq,
}
use rktlet.Base.Chars.{cut, strip_prefix, has_prefix}

-- The text matches `before` here, then `[^"]+`, then a quotation mark and `after`. What `[^"]+`
-- matches ends where the first quotation mark stands.
abbrev quoted_then : String → Option String → Bool
quoted_then after none = false
quoted_then after (some rest) = elim (cut b'"' rest) [
  | none ↦ false
  | some (quoted, tail) ↦ not (quoted == "") && has_prefix tail after
]

unfoldable pub matches_here : String → String → String → Bool
matches_here before after s = quoted_then after (strip_prefix before s)

-- Regexp.MatchString, for an expression with no anchor.
unfoldable pub match_string : String → String → String → Bool
match_string before after [] = matches_here before after ""
match_string before after (c ∷ s) = matches_here before after (c ∷ s) || match_string before after s

-- `pod "[^"]+" is already stopped`
unfoldable pub rkt_stop_is_already_stopped_error : Option String → Bool
rkt_stop_is_already_stopped_error none = false
rkt_stop_is_already_stopped_error (some text) = match_string "pod \"" " is already stopped" text

-- `stop: cannot get pod: no matches found for "[^"]+"`
unfoldable pub rkt_stop_is_not_exist_error : Option String → Bool
rkt_stop_is_not_exist_error none = false
rkt_stop_is_not_exist_error (some text) =
    match_string "stop: cannot get pod: no matches found for \"" "" text
