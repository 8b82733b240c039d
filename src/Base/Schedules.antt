-- ===== src/Base/Schedules.antt =====
-- Goroutines whose atomic calls happen in some order: each does its own calls in order, and the scheduler
-- picks whose call is next.
use mathlib.Core.List.{List, [], ◌∷◌}

-- The calls of two goroutines, in one of the orders possible.
pub data Merge {ℓ} {A : Type ℓ} : List A → List A → List A → Type ℓ where
  idle : Merge [] [] []
  left : {x : A} {xs ys zs : List A} → Merge xs ys zs → Merge (x ∷ xs) ys (x ∷ zs)
  right : {y : A} {xs ys zs : List A} → Merge xs ys zs → Merge xs (y ∷ ys) (y ∷ zs)

-- Those of any number of goroutines.
pub data Schedule {ℓ} {A : Type ℓ} : List (List A) → List A → Type ℓ where
  no_one : Schedule [] []
  with_one :
      {xs ys zs : List A} {others : List (List A)}
      → Merge xs ys zs
      → Schedule others ys
      → Schedule (xs ∷ others) zs
