-- ===== src/Runtime/AppName.antt =====
-- rktlet/runtime/helpers.go: container IDs and app names, the two names of a container.
-- `sanitize` is SanitizeACName of github.com/appc/spec/schema/types.
pub mod RoundTrip
use rktlet.Base.{ℕ, ◌-◌, ◌^◌, String, ◌<>◌, List, [], ◌∷◌, Result, ok, err, ◌>>=◌, map_err}
use rktlet.Base.Chars.{split_two}
use rktlet.Base.Decimal.{decimal, parse_uint, Parsed, value, syntax, range}
use rktlet.Errors.{Error, external, invalid_container_id, invalid_app_name}

-- The largest uint32.
abbrev pub max_uint32 : ℕ
max_uint32 = 2 ^ 32 - 1

-- The test `len(values) != 2`, and the two values.
abbrev both : Error → List String → Result Error (String × String)
both e (a ∷ b ∷ []) = ok (a, b)
both e _ = err e

unfoldable pub build_container_id : String → String → String
build_container_id uuid app_name = uuid <> ":" <> app_name

abbrev attempt_of : Error → Parsed → Result Error ℕ
attempt_of e (value n) = ok n
attempt_of e syntax = err e
attempt_of e range = err e

unfoldable pub parse_app_name : String → Result Error (ℕ × String)
parse_app_name app_name = do
  values ← both (invalid_app_name app_name) (split_two b'-' app_name)
  attempt ← attempt_of (invalid_app_name app_name) (parse_uint max_uint32 values.0)
  ok (attempt, values.1)

module _ (sanitize : String → Result String String) where
  unfoldable pub parse_container_id : String → Result Error (String × String)
  parse_container_id container_id = do
    values ← both (invalid_container_id container_id) (split_two b':' container_id)
    app_name ← map_err external (sanitize values.1)
    ok (values.0, app_name)

  unfoldable pub build_app_name : ℕ → String → Result Error String
  build_app_name attempt container_name = do
    s_name ← map_err external (sanitize container_name)
    ok (decimal attempt <> "-" <> s_name)
