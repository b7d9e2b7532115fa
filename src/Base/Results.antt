-- ===== src/Base/Results.antt =====
-- Go's pair of a result and an error, of which the program uses one or the other.
use mathlib.Core.Path.{◌≡◌, refl, ap}
use mathlib.Core.Logic.{◌⊎◌, inl, inr}
use mathlib.Core.Bool.{Bool, true, false}
use native.Mathlib.Omega.{arith}

pub data Result (E A : Type 0) : Type 0 where
  ok : A → Result E A
  err : E → Result E A

module _ {E A B : Type 0} where
  infixl 5 ◌>>=◌
  abbrev pub ◌>>=◌ : Result E A → (A → Result E B) → Result E B
  ok a >>= f = f a
  err e >>= f = err e

  -- `if err != nil { return wrap(err) }`
  abbrev pub map_err : (E → B) → Result E A → Result B A
  map_err f (ok a) = ok a
  map_err f (err e) = err (f e)

module _ {E A : Type 0} where
  abbrev pub is_ok : Result E A → Bool
  is_ok (ok a) = true
  is_ok (err e) = false

  pub Result-cases : (r : Result E A) → ((a : A) × (r ≡ ok a)) ⊎ ((e : E) × (r ≡ err e))
  Result-cases (ok a) = inl (a, refl)
  Result-cases (err e) = inr (e, refl)

  pub ok-injective : {a b : A} → ◌≡◌ {A = Result E A} (ok a) (ok b) → a ≡ b
  ok-injective {a} h = ap (λ r. value_or a r) h
    where
      value_or : A → Result E A → A
      value_or a (ok b) = b
      value_or a (err e) = a

module _ {E F A : Type 0} where
  pub map_err-ok : (f : E → F) (r : Result E A) {a : A} → map_err f r ≡ ok a → r ≡ ok a
  map_err-ok f (ok a) e = ap ok (ok-injective e)
  map_err-ok f (err x) e = absurd (ground arith)
