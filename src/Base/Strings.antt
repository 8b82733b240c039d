-- ===== src/Base/Strings.antt =====
-- `strings.Contains` and `strings.Split` at a separator of one byte, over byte strings.
use Prim.Native.Nat.{ℕ}
use mathlib.Core.Path.{◌≡◌, refl}
use mathlib.Core.Logic.{◌≢◌}
use mathlib.Core.Bool.{Bool, true, false, ◌&&◌, ◌||◌}
use mathlib.Core.List.{List, [], ◌∷◌, ◌++◌}
use native.Mathlib.Omega.{arith}
use peekd.Base.Tests.{◌==◌, if◌then◌else◌}
use peekd.Base.Lists.{Text, All}

unfoldable pub has_prefix : Text → Text → Bool
has_prefix s [] = true
has_prefix [] (c ∷ sub) = false
has_prefix (d ∷ s) (c ∷ sub) = d == c && has_prefix s sub

unfoldable pub contains : Text → Text → Bool
unfolding has_prefix
contains [] sub = has_prefix [] sub
contains (d ∷ s) sub = has_prefix (d ∷ s) sub || contains s sub

cons_head : ℕ → List Text → List Text
cons_head c [] = (c ∷ []) ∷ []
cons_head c (part ∷ parts) = (c ∷ part) ∷ parts

unfoldable pub split : Text → ℕ → List Text
unfolding cons_head
split [] sep = [] ∷ []
split (c ∷ s) sep = let parts = split s sep in if c == sep then [] ∷ parts else cons_head c parts

abbrev pub Lacks : ℕ → Text → Type 0
Lacks b = All (λ c. c ≢ b)

pub split-append :
    (part rest : Text) (sep : ℕ)
    → Lacks sep part
    → split (part ++ (sep ∷ rest)) sep ≡ part ∷ split rest sep
unfolding split
split-append [] rest sep h = ground arith
split-append (c ∷ part) rest sep h = ground (arith, split-append part rest sep h.1)

pub split-Lacks : (part : Text) (sep : ℕ) → Lacks sep part → split part sep ≡ part ∷ []
unfolding split
split-Lacks [] sep h = refl
split-Lacks (c ∷ part) sep h = ground (arith, split-Lacks part sep h.1)

has_prefix-append : (s rest : Text) → has_prefix (s ++ rest) s ≡ true
unfolding has_prefix
has_prefix-append [] rest = refl
has_prefix-append (c ∷ s) rest = ground (arith, has_prefix-append s rest)

contains_prefix : (s rest : Text) → contains (s ++ rest) s ≡ true
unfolding contains
contains_prefix [] [] = refl
contains_prefix [] (c ∷ rest) = refl
contains_prefix (c ∷ s) rest = ground (arith, has_prefix-append (c ∷ s) rest)

-- A string contains what it was joined from.
pub contains-append : (a s b : Text) → contains (a ++ (s ++ b)) s ≡ true
unfolding contains
contains-append [] s b = contains_prefix s b
contains-append (c ∷ a) s b = ground (arith, contains-append a s b)
