-- ===== src/Prelude/Search.antt =====
-- The first element of a list with a property, and a property that some element has.
use mathlib.Core.Path.{◌≡◌}
use mathlib.Core.Logic.{◌⊎◌, inl, inr}
use mathlib.Core.Bool.{Bool, true}
use mathlib.Core.Option.{Option, none, some}
use mathlib.Core.List.{List, [], ◌∷◌}
use native.Mathlib.Omega.{arith}
use n_rf24_module.Prelude.Tests.{if◌then◌else◌}

module _ {ℓ} {A : Type ℓ} where
  abbrev pub first : (A → Bool) → List A → Option A
  first p [] = none
  first p (x ∷ xs) = if p x then some x else first p xs

  abbrev pub Any : (A → Type 0) → List A → Type 0
  Any P [] = ⊥
  Any P (x ∷ xs) = P x ⊎ Any P xs

module _ {A : Type 0} where
  pub first-Any :
      (p : A → Bool) (xs : List A) (x : A)
      → first p xs ≡ some x
      → Any (λ y. (y ≡ x) × (p y ≡ true)) xs
  first-Any p [] x h = ground arith
  first-Any p (y ∷ xs) x h = ground (arith, first-Any p xs x)

  pub Any-map : {P Q : A → Type 0} → ((x : A) → P x → Q x) → (xs : List A) → Any P xs → Any Q xs
  Any-map f [] h = absurd h
  Any-map f (x ∷ xs) (inl h) = inl (f x h)
  Any-map f (x ∷ xs) (inr h) = inr (Any-map f xs h)
