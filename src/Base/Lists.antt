-- ===== src/Base/Lists.antt =====
-- Lists measured by native numbers, predicates on their elements, and Go's loops over slices.
use Prim.Native.Nat.{ℕ, suc, ◌+◌}
use Prim.Native.String.{String, ◌++◌ as ◌<>◌}
use mathlib.Core.Path.{◌≡◌, refl, ap, subst}
use mathlib.Core.Logic.{◌⊎◌, inl, inr}
use mathlib.Core.Bool.{Bool, true, false, ◌&&◌, ◌||◌}
use mathlib.Core.List.{List, [], ◌∷◌, ◌++◌, map}
use native.Mathlib.Omega.{arith}

module _ {ℓ} {A : Type ℓ} where
  abbrev pub length : List A → ℕ
  length [] = 0
  length (x ∷ xs) = suc (length xs)

  abbrev pub any : (A → Bool) → List A → Bool
  any p [] = false
  any p (x ∷ xs) = p x || any p xs

  abbrev pub all : (A → Bool) → List A → Bool
  all p [] = true
  all p (x ∷ xs) = p x && all p xs

  pub length-append : (xs ys : List A) → length (xs ++ ys) ≡ length xs + length ys
  length-append [] ys = omega arith
  length-append (x ∷ xs) ys = omega (arith, length-append xs ys)

module _ {ℓ κ} {A : Type ℓ} (P : A → Type κ) where
  abbrev pub All : List A → Type κ
  All [] = Unit
  All (x ∷ xs) = P x × All xs

  pub All-append : (xs ys : List A) → All xs → All ys → All (xs ++ ys)
  All-append [] ys hx hy = hy
  All-append (x ∷ xs) ys hx hy = (hx.0, All-append xs ys hx.1 hy)

module _ {ℓ κ} {A : Type ℓ} {P Q : A → Type κ} where
  pub All-mono : ((a : A) → P a → Q a) → (xs : List A) → All P xs → All Q xs
  All-mono f [] h = tt
  All-mono f (x ∷ xs) h = (f x h.0, All-mono f xs h.1)

module _ {ℓ κ} {A : Type ℓ} {P Q R : A → Type κ} where
  pub All-map₂ : ((a : A) → P a → Q a → R a) → (xs : List A) → All P xs → All Q xs → All R xs
  All-map₂ f [] h k = tt
  All-map₂ f (x ∷ xs) h k = (f x h.0 k.0, All-map₂ f xs h.1 k.1)

module _ {A : Type 0} where
  -- The element is in the list.
  abbrev pub Has : A → List A → Type 0
  Has key [] = ⊥
  Has key (v ∷ vs) = (v ≡ key) ⊎ Has key vs

  pub Has-append_left : (key : A) (xs ys : List A) → Has key xs → Has key (xs ++ ys)
  Has-append_left key [] ys h = absurd h
  Has-append_left key (x ∷ xs) ys (inl here) = inl here
  Has-append_left key (x ∷ xs) ys (inr later) = inr (Has-append_left key xs ys later)

  pub Has-append_right : (key : A) (xs ys : List A) → Has key ys → Has key (xs ++ ys)
  Has-append_right key [] ys h = h
  Has-append_right key (x ∷ xs) ys h = inr (Has-append_right key xs ys h)

  pub All-Has : (xs : List A) → All (λ v. Has v xs) xs
  All-Has [] = tt
  All-Has (x ∷ xs) = (inl refl, All-mono (λ v. inr) xs (All-Has xs))

module _ {A : Type 0} (P : A → Type 0) where
  pub All-at : (key : A) (xs : List A) → All P xs → Has key xs → P key
  All-at key [] h has = absurd has
  All-at key (x ∷ xs) h (inl here) = subst P here h.0
  All-at key (x ∷ xs) h (inr later) = All-at key xs h.1 later

module _ {A B : Type 0} (f : A → B) where
  pub Has-map : (key : A) (xs : List A) → Has key xs → Has (f key) (map f xs)
  Has-map key [] has = absurd has
  Has-map key (x ∷ xs) (inl here) = inl (ap f here)
  Has-map key (x ∷ xs) (inr later) = inr (Has-map key xs later)

  pub Has-of_map : (key : B) (xs : List A) → Has key (map f xs) → (a : A) × Has a xs × (f a ≡ key)
  Has-of_map key [] has = absurd has
  Has-of_map key (x ∷ xs) (inl here) = (x, inl refl, here)
  Has-of_map key (x ∷ xs) (inr later) =
      let (a, has, same) = Has-of_map key xs later in (a, inr has, same)

module _ {ℓ κ} {A : Type ℓ} {B : Type κ} (R : A → B → Type 0) where
  -- Two lists of one length, related element by element.
  abbrev pub All₂ : List A → List B → Type 0
  All₂ [] [] = Unit
  All₂ (x ∷ xs) (y ∷ ys) = R x y × All₂ xs ys
  All₂ _ _ = ⊥

-- strings.Join
abbrev pub join : String → List String → String
join sep [] = ""
join sep (s ∷ []) = s
join sep (s ∷ t ∷ r) = s <> sep <> join sep (t ∷ r)
