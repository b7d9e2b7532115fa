-- ===== src/Base/Decimal.antt =====
-- strconv: decimal numbers printed and parsed.
use Prim.Native.Nat.{ℕ, zero, suc, ◌+◌, ◌-◌, ◌*◌, ◌/◌, ◌%◌, ◌≤◌, ◌<◌}
use Prim.Native.Char.{Char, code}
use Prim.Native.String.{String, [], ◌∷◌}
use mathlib.Core.Path.{◌≡◌, refl, ap, ◌∙◌}
use mathlib.Core.Logic.{◌≢◌}
use mathlib.Core.Bool.{true, false, ◌&&◌}
use native.Mathlib.Omega.{arith}
use native.Mathlib.Decide.{dec_lt}
use native.Mathlib.Nat.{zero-add}
use text.Mathlib.TextLemmas.{cons≢nil}
use rktlet.Base.Tests.{text_eq, ltb, leb, if◌then◌else◌, lt→ltb}
use rktlet.Base.Chars.{Lacks}

-- The digit of a number below ten.
unfoldable pub digit : ℕ → Char
digit zero = "0"
digit (suc zero) = "1"
digit (suc (suc zero)) = "2"
digit (suc (suc (suc zero))) = "3"
digit (suc (suc (suc (suc zero)))) = "4"
digit (suc (suc (suc (suc (suc zero))))) = "5"
digit (suc (suc (suc (suc (suc (suc zero)))))) = "6"
digit (suc (suc (suc (suc (suc (suc (suc zero))))))) = "7"
digit (suc (suc (suc (suc (suc (suc (suc (suc zero)))))))) = "8"
digit _ = "9"

-- The digits of `n` before those already written, from the last one on.
unfoldable pub digits : ℕ → ℕ → String → String
unfolding digit
digits zero n out = out
digits (suc fuel) n out = elim (ltb n 10) [
  | true ↦ digit n ∷ out
  | false ↦ digits fuel (n / 10) (digit (n % 10) ∷ out)
]

-- %d of an unsigned number
unfoldable pub decimal : ℕ → String
unfolding digits
decimal n = digits (suc n) n ""

-- What strconv.ParseUint gives: a value, or which of its two errors.
pub data Parsed : Type 0 where
  value : ℕ → Parsed
  syntax range : Parsed

-- The loop of ParseUint in base ten: a bad character is found before an overflow.
unfoldable pub parse_digits : ℕ → ℕ → String → Parsed
parse_digits most n [] = value n
parse_digits most n (c ∷ s) =
    let rest = parse_digits most (n * 10 + (code c - b'0')) s in
    if leb b'0' (code c) && leb (code c) b'9'
    then (if leb (n * 10 + (code c - b'0')) most then rest else range)
    else syntax

-- strconv.ParseUint(s, 10, bits), where `most` is 2^bits - 1
unfoldable pub parse_uint : ℕ → String → Parsed
unfolding parse_digits
parse_uint most [] = syntax
parse_uint most (c ∷ s) = parse_digits most 0 (c ∷ s)

code-digit : (n : ℕ) → n < 10 → code (digit n) ≡ 48 + n
unfolding digit
code-digit zero h = refl
code-digit (suc zero) h = refl
code-digit (suc (suc zero)) h = refl
code-digit (suc (suc (suc zero))) h = refl
code-digit (suc (suc (suc (suc zero)))) h = refl
code-digit (suc (suc (suc (suc (suc zero))))) h = refl
code-digit (suc (suc (suc (suc (suc (suc zero)))))) h = refl
code-digit (suc (suc (suc (suc (suc (suc (suc zero))))))) h = refl
code-digit (suc (suc (suc (suc (suc (suc (suc (suc zero)))))))) h = refl
code-digit (suc (suc (suc (suc (suc (suc (suc (suc (suc n))))))))) h =
    let e : n ≡ 0 = omega arith in rw e refl

-- A step of the loop at a digit.
parse_digits-cons :
    (most n : ℕ) (c : Char) (s : String)
    → 48 ≤ code c
    → code c ≤ 57
    → n * 10 + (code c - 48) ≤ most
    → parse_digits most n (c ∷ s) ≡ parse_digits most (n * 10 + (code c - 48)) s
unfolding parse_digits
parse_digits-cons most n c s h k l =
    let low : leb 48 (code c) ≡ true = ground arith in
    let high : leb (code c) 57 ≡ true = ground arith in
    let fits : leb (n * 10 + (code c - 48)) most ≡ true = ground arith in rw (low, high, fits) refl

parse_digits-digit :
    (most n d : ℕ) (s : String)
    → d < 10
    → n * 10 + d ≤ most
    → parse_digits most n (digit d ∷ s) ≡ parse_digits most (n * 10 + d) s
parse_digits-digit most n d s h k =
    let e : n * 10 + (code (digit d) - 48) ≡ n * 10 + d = omega (arith, code-digit d h) in
    parse_digits-cons most n (digit d) s (omega (arith, code-digit d h))
      (omega (arith, code-digit d h)) (omega arith)
    ∙ ap (λ m. parse_digits most m s) e

digits-lt : (f n : ℕ) (out : String) → n < 10 → digits (suc f) n out ≡ digit n ∷ out
unfolding digits
digits-lt f n out h = rw (lt→ltb n 10 h, digits)

digits-le :
    (f n : ℕ) (out : String)
    → 10 ≤ n
    → digits (suc f) n out ≡ digits f (n / 10) (digit (n % 10) ∷ out)
unfolding digits
digits-le f n out h = let e : ltb n 10 ≡ false = ground arith in rw (e, digits)

parse_digits-digits :
    (most f n : ℕ) (out : String)
    → n < f
    → n ≤ most
    → parse_digits most 0 (digits f n out) ≡ parse_digits most n out
parse_digits-digits most zero n out h k = absurd (omega arith)
parse_digits-digits most (suc f) n out h k = elim (dec_lt n 10) [
  | yes small ↦
      rw (digits-lt f n out small)
        (parse_digits-digit most 0 n out small (omega arith) ∙ rw zero-add)
  | no large ↦
      let again : n / 10 * 10 + n % 10 ≡ n = omega arith in
      rw (digits-le f n out (omega arith)) (
        parse_digits-digits most f (n / 10) (digit (n % 10) ∷ out) (omega arith) (omega arith)
        ∙ parse_digits-digit most (n / 10) (n % 10) out (omega arith) (omega arith)
        ∙ rw again)
]

digits-ne-nil : (f n : ℕ) (out : String) → out ≢ "" → digits f n out ≢ ""
unfolding digits
digits-ne-nil zero n out h = h
digits-ne-nil (suc f) n out h = elim (dec_lt n 10) [
  | yes small ↦ rw (digits-lt f n out small) (λ e. cons≢nil e)
  | no large ↦ rw (digits-le f n out (omega arith)) (digits-ne-nil f (n / 10) _ (λ e. cons≢nil e))
]

pub decimal-ne-nil : (n : ℕ) → decimal n ≢ ""
unfolding decimal
decimal-ne-nil n = elim (dec_lt n 10) [
  | yes small ↦ rw (digits-lt n n "" small) (λ e. cons≢nil e)
  | no large ↦ rw (digits-le n n "" (omega arith)) (digits-ne-nil n (n / 10) _ (λ e. cons≢nil e))
]

parse_uint-eq-parse_digits :
    (most : ℕ) (s : String) → s ≢ "" → parse_uint most s ≡ parse_digits most 0 s
unfolding parse_uint
parse_uint-eq-parse_digits most [] h = absurd (h refl)
parse_uint-eq-parse_digits most (c ∷ s) h = refl

parse_digits-nil : (most n : ℕ) → parse_digits most n "" ≡ value n
unfolding parse_digits
parse_digits-nil most n = refl

-- A number within the bound is read back from its print.
pub parse_uint-decimal : (most n : ℕ) → n ≤ most → parse_uint most (decimal n) ≡ value n
unfolding decimal
parse_uint-decimal most n h =
    parse_uint-eq-parse_digits most (decimal n) (decimal-ne-nil n)
    ∙ parse_digits-digits most (suc n) n "" (omega arith) h
    ∙ parse_digits-nil most n

parse_digits-le :
    (most n : ℕ) (s : String) {v : ℕ} → n ≤ most → parse_digits most n s ≡ value v → v ≤ most
unfolding parse_digits
parse_digits-le most n [] h e = ground arith
parse_digits-le most n (c ∷ s) {v} h e =
    ground (arith, parse_digits-le most (n * 10 + (code c - 48)) s {v = v})

-- A parsed number is within the bound.
pub parse_uint-le : (most : ℕ) (s : String) {v : ℕ} → parse_uint most s ≡ value v → v ≤ most
unfolding parse_uint
parse_uint-le most [] e = ground arith
parse_uint-le most (c ∷ s) e = parse_digits-le most 0 (c ∷ s) (omega arith) e

digits-Lacks : (sep f n : ℕ) (out : String) → sep < 48 → Lacks sep out → Lacks sep (digits f n out)
unfolding digits
digits-Lacks sep zero n out h k = k
digits-Lacks sep (suc f) n out h k = elim (dec_lt n 10) [
  | yes small ↦ rw (digits-lt f n out small) (omega (arith, code-digit n small), k)
  | no large ↦ rw (digits-le f n out (omega arith)) (
      digits-Lacks sep f (n / 10) (digit (n % 10) ∷ out) h
        (omega (arith, code-digit (n % 10) (omega arith)), k))
]

-- A printed number has no character below the digits.
pub decimal-Lacks : (sep n : ℕ) → sep < 48 → Lacks sep (decimal n)
unfolding decimal
decimal-Lacks sep n h = digits-Lacks sep (suc n) n "" h tt
