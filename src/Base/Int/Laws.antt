-- ===== src/Base/Int/Laws.antt =====
-- Integers that are printed are parsed back.
use Prim.Native.Nat.{ℕ, ◌<◌, ◌-◌, ◌*◌, ◌/◌, ◌^◌}
use Prim.Native.Char.{code}
use Prim.Native.String.{String, [], ◌∷◌}
use mathlib.Core.Path.{◌≡◌, refl}
use mathlib.Core.Logic.{◌≢◌}
use mathlib.Core.Bool.{false}
use native.Mathlib.Omega.{arith}
use rktlet.Base.Tests.{◌==◌, nat_eq}
use rktlet.Base.Chars.{Lacks}
use rktlet.Base.Decimal.{decimal, parse_uint, parse_uint-decimal, decimal-Lacks, decimal-ne-nil}
use rktlet.Base.Int.{pos, parse_int, of_parsed, mul64, div64, wrap64-of_IsInt64}

parse_int-unsigned :
    (s : String)
    → s ≢ ""
    → Lacks b'-' s
    → Lacks b'+' s
    → parse_int s ≡ of_parsed false (parse_uint (2 ^ 64 - 1) s)
unfolding parse_int
parse_int-unsigned [] ne h k = absurd (ne refl)
parse_int-unsigned (c ∷ s) ne (h, _) (k, _) =
    let no_minus : (code c == b'-') ≡ false = ground arith in
    let no_plus : (code c == b'+') ≡ false = ground arith in rw (no_minus, no_plus) refl

-- An int64 that is not negative is read back from its print.
pub parse_int-decimal :
    (n : ℕ) → n < 2 ^ 63 → parse_int (decimal n) ≡ record { int = pos n; failed = false }
parse_int-decimal n h =
    rw
      (
        parse_int-unsigned (decimal n) (decimal-ne-nil n) (decimal-Lacks 45 n (omega arith))
            (decimal-Lacks 43 n (omega arith)),
        parse_uint-decimal (2 ^ 64 - 1) n (omega arith),
      )
      (ground arith)

pub mul64-pos : (a b : ℕ) → a * b < 2 ^ 63 → mul64 (pos a) (pos b) ≡ pos (a * b)
unfolding mul64
mul64-pos a b h = wrap64-of_IsInt64 (pos (a * b)) h

pub div64-pos : (a b : ℕ) → a < 2 ^ 63 → div64 (pos a) (pos b) ≡ pos (a / b)
unfolding div64
div64-pos a b h = wrap64-of_IsInt64 (pos (a / b)) (grind arith)
