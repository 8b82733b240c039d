-- ===== src/Base/Results.antt =====
-- Errors of github.com/pkg/errors, and the result of a call that returns a value, returns an error
-- or panics.
use mathlib.Core.Logic.{◌⊎◌, inl, inr}
use mathlib.Core.Path.{◌≡◌, refl, ap}
use native.Mathlib.Omega.{arith}
use peekd.Base.Lists.{Text}

-- `errors.New`, and `errors.Wrap` with its message.
pub data Error : Type 0 where
  new : Text → Error
  wrap : Error → Text → Error
  -- `context.Canceled`
  canceled : Error

pub data Result {ℓ} (A : Type ℓ) : Type ℓ where
  ok : A → Result A
  err : Error → Result A
  panicked : Result A

infixl 5 ◌>>=◌
abbrev pub ◌>>=◌ {ℓ κ} : {A : Type ℓ} {B : Type κ} → Result A → (A → Result B) → Result B
ok a >>= f = f a
err e >>= f = err e
panicked >>= f = panicked

-- `if err != nil { return errors.Wrap(err, text) }`
abbrev pub wrapped {ℓ} : {A : Type ℓ} → Text → Result A → Result A
wrapped text (ok a) = ok a
wrapped text (err e) = err (wrap e text)
wrapped text panicked = panicked

-- The cases of a result.
pub Result-cases {ℓ} :
    {A : Type ℓ} (r : Result A)
    → ((a : A) × (r ≡ ok a)) ⊎ ((e : Error) × (r ≡ err e)) ⊎ (r ≡ panicked)
Result-cases (ok a) = inl (a, refl)
Result-cases (err e) = inr (inl (e, refl))
Result-cases panicked = inr (inr refl)

-- A call that returns a value.
abbrev pub IsOk {ℓ} : {A : Type ℓ} → Result A → Type 0
IsOk (ok a) = Unit
IsOk (err e) = ⊥
IsOk panicked = ⊥

pub ok_of {ℓ} : {A : Type ℓ} (r : Result A) → IsOk r → (a : A) × (r ≡ ok a)
ok_of (ok a) h = (a, refl)
ok_of (err e) h = absurd h
ok_of panicked h = absurd h

-- Where a chain of calls returns a value, so does its first call.
pub bind-ok {ℓ κ} :
    {A : Type ℓ} {B : Type κ} (r : Result A) (f : A → Result B) (b : B)
    → (r >>= f) ≡ ok b
    → (a : A) × (r ≡ ok a) × (f a ≡ ok b)
bind-ok (ok a) f b e = (a, refl, e)
bind-ok (err x) f b e = absurd (ground arith)
bind-ok panicked f b e = absurd (ground arith)

pub ok-inj {ℓ} : {A : Type ℓ} {a b : A} → ok a ≡ ok b → a ≡ b
ok-inj {a} e = ap (λ r. elim r [ ok x ↦ x | err x ↦ a | panicked ↦ a ]) e
