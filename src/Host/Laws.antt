-- ===== src/Host/Laws.antt =====
-- Taking a handler that succeeded apart into its steps.
use rktlet.Base.{◌≡◌, refl, Result, ok, err, arith}
use rktlet.Errors.{Error}
use rktlet.Host.{Act, and_then, wrapped}

module _ {S A B : Type 0} where
  pub and_then-eq-ok :
      (p : Result Error A × S) (f : A → Act S B) {b : B} {t : S}
      → and_then p f ≡ (ok b, t)
      → (a : A) × (u : S) × (p ≡ (ok a, u)) × (f a u ≡ (ok b, t))
  and_then-eq-ok (ok a, u) f h = (a, u, refl, h)
  and_then-eq-ok (err e, u) f h = absurd (ground arith)

  pub wrapped-eq-ok :
      (f : B → Error) (p : Result B A × S) {a : A} {t : S} → wrapped f p ≡ (ok a, t) → p ≡ (ok a, t)
  wrapped-eq-ok f (ok a, u) h = ground arith
  wrapped-eq-ok f (err e, u) h = ground arith

  -- The same, for a step whose result is known.
  pub and_then-ok :
      {p : Result Error A × S} {a : A} {s : S} (f : A → Act S B)
      → p ≡ (ok a, s)
      → and_then p f ≡ f a s
  and_then-ok f e = λ i. and_then (e i) f

  pub and_then-err :
      {p : Result Error A × S} {e : Error} {s : S} (f : A → Act S B)
      → p ≡ (err e, s)
      → and_then p f ≡ (err e, s)
  and_then-err f h = λ i. and_then (h i) f
