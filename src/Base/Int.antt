-- ===== src/Base/Int.antt =====
-- int64: integers over the native numbers, with the wrap-around of Go's arithmetic, printed and
-- parsed.
pub mod Laws
use Prim.Native.Nat.{ℕ, zero, suc, ◌+◌, ◌-◌, ◌*◌, ◌/◌, ◌%◌, ◌^◌, ◌≤◌, ◌<◌}
use Prim.Native.Char.{code}
use Prim.Native.String.{String, [], ◌∷◌, ◌++◌ as ◌<>◌}
use mathlib.Core.Path.{◌≡◌, refl}
use mathlib.Core.Bool.{Bool, true, false}
use native.Mathlib.Omega.{arith}
use rktlet.Base.Tests.{◌==◌, nat_eq, ltb, leb, if◌then◌else◌}
use rktlet.Base.Decimal.{decimal, Parsed, value, syntax, range, parse_uint}

-- `negsuc n` is -(n + 1).
pub data ℤ : Type 0 where
  pos : ℕ → ℤ
  negsuc : ℕ → ℤ

abbrev pub is_negative : ℤ → Bool
is_negative (pos n) = false
is_negative (negsuc n) = true

abbrev pub magnitude : ℤ → ℕ
magnitude (pos n) = n
magnitude (negsuc n) = suc n

-- The integer with a sign and a magnitude.
abbrev pub signed : Bool → ℕ → ℤ
signed false n = pos n
signed true zero = pos 0
signed true (suc n) = negsuc n

abbrev sign_mul : ℤ → ℤ → Bool
sign_mul (pos _) (pos _) = false
sign_mul (negsuc _) (negsuc _) = false
sign_mul _ _ = true

-- The integer of 64 bits that a residue stands for, in two's complement.
abbrev of_bits : ℕ → ℤ
of_bits r = if ltb r (2 ^ 63) then pos r else negsuc (2 ^ 64 - r - 1)

unfoldable pub wrap64 : ℤ → ℤ
wrap64 (pos n) = of_bits (n % 2 ^ 64)
wrap64 (negsuc n) = of_bits (2 ^ 64 - 1 - n % 2 ^ 64)

-- The integer of 32 bits that a residue stands for.
abbrev of_bits32 : ℕ → ℤ
of_bits32 r = if ltb r (2 ^ 31) then pos r else negsuc (2 ^ 32 - r - 1)

-- `int32(a)`
unfoldable pub wrap32 : ℤ → ℤ
wrap32 (pos n) = of_bits32 (n % 2 ^ 32)
wrap32 (negsuc n) = of_bits32 (2 ^ 32 - 1 - n % 2 ^ 32)

infixl 70 ◌*ℤ◌
abbrev pub ◌*ℤ◌ : ℤ → ℤ → ℤ
a *ℤ b = signed (sign_mul a b) (magnitude a * magnitude b)

-- Division that truncates towards zero.
infixl 70 ◌/ℤ◌
abbrev pub ◌/ℤ◌ : ℤ → ℤ → ℤ
a /ℤ b = signed (sign_mul a b) (magnitude a / magnitude b)

-- `a * b` and `a / b` on int64
unfoldable pub mul64 : ℤ → ℤ → ℤ
mul64 a b = wrap64 (a *ℤ b)

unfoldable pub div64 : ℤ → ℤ → ℤ
div64 a b = wrap64 (a /ℤ b)

-- The integers that an int64 holds.
abbrev pub IsInt64 : ℤ → Type 0
IsInt64 (pos n) = n < 2 ^ 63
IsInt64 (negsuc n) = n < 2 ^ 63

pub wrap64-of_IsInt64 : (a : ℤ) → IsInt64 a → wrap64 a ≡ a
unfolding wrap64
wrap64-of_IsInt64 (pos n) h = ground arith
wrap64-of_IsInt64 (negsuc n) h = ground arith

-- The integers that an int32 holds.
abbrev pub IsInt32 : ℤ → Type 0
IsInt32 (pos n) = n < 2 ^ 31
IsInt32 (negsuc n) = n < 2 ^ 31

pub wrap32-of_IsInt32 : (a : ℤ) → IsInt32 a → wrap32 a ≡ a
unfolding wrap32
wrap32-of_IsInt32 (pos n) h = ground arith
wrap32-of_IsInt32 (negsuc n) h = ground arith

-- %d of an int64
unfoldable pub decimal_int : ℤ → String
unfolding decimal
decimal_int (pos n) = decimal n
decimal_int (negsuc n) = "-" <> decimal (suc n)

-- `uint64(a)`
abbrev pub to_uint64 : ℤ → ℕ
to_uint64 (pos n) = n % 2 ^ 64
to_uint64 (negsuc n) = 2 ^ 64 - 1 - n % 2 ^ 64

-- What strconv.ParseInt(s, 10, 64) returns: its value, and whether there is an error too.
pub record ParsedInt : Type 0 where
  pub int : ℤ
  pub failed : Bool

-- The sign and the magnitude that ParseUint gave, cut off at the bounds.
abbrev of_magnitude : Bool → ℕ → ParsedInt
of_magnitude false n =
    if leb (2 ^ 63) n
    then record { int = pos (2 ^ 63 - 1); failed = true }
    else record { int = pos n; failed = false }
of_magnitude true n =
    if ltb (2 ^ 63) n
    then record { int = negsuc (2 ^ 63 - 1); failed = true }
    else record { int = signed true n; failed = false }

abbrev of_parsed : Bool → Parsed → ParsedInt
of_parsed negative (value n) = of_magnitude negative n
of_parsed negative syntax = record { int = pos 0; failed = true }
of_parsed negative range = of_magnitude negative (2 ^ 64 - 1)

unfoldable pub parse_int : String → ParsedInt
parse_int [] = record { int = pos 0; failed = true }
parse_int (c ∷ s) =
    if code c == b'-'
    then of_parsed true (parse_uint (2 ^ 64 - 1) s)
    else if code c == b'+'
    then of_parsed false (parse_uint (2 ^ 64 - 1) s)
    else of_parsed false (parse_uint (2 ^ 64 - 1) (c ∷ s))
