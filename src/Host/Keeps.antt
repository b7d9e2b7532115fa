-- ===== src/Host/Keeps.antt =====
-- Steps that leave what is seen of the host's state as it is.
use rktlet.Base.{◌≡◌, refl, Option, none, some, Result, ok, err}
use rktlet.Errors.{Error}
use rktlet.Host.{Act, and_then, wrapped, failing}

module _ {S X : Type 0} (view : S → X) where
  -- What follows on a step keeps the view that the step left.
  pub and_then-keeps :
      {A B : Type 0} (p : Result Error A × S) (f : A → Act S B)
      → ((a : A) (s : S) → view (f a s).1 ≡ view s)
      → view (and_then p f).1 ≡ view p.1
  and_then-keeps (ok a, s) f h = h a s
  and_then-keeps (err e, s) f h = refl

  pub wrapped-keeps :
      {E A : Type 0} (f : E → Error) (p : Result E A × S) → view (wrapped f p).1 ≡ view p.1
  wrapped-keeps f (ok a, s) = refl
  wrapped-keeps f (err e, s) = refl

  pub failing-keeps : (p : Option _ × S) → view (failing p).1 ≡ view p.1
  failing-keeps (none, s) = refl
  failing-keeps (some e, s) = refl
