-- ===== src/Witness/Sorting.antt =====
-- Scores as natural numbers, and a sort of scored peers, to run `prune` with.
use mathlib.Core.List.{Perm}
use mathlib.Core.List.Perm
use peekd.Base.{
  ℕ, ◌≡◌, true, false, List, [], ◌∷◌, Text, All, ltb, arith, Bool-cases, inl, inr, if◌then◌else◌,
}
use peekd.Gossip.Prune.{Scores, IsSorted}

pub ltb_irrefl : (a : ℕ) → ltb a a ≡ false
ltb_irrefl a = ground arith

pub ltb_chain : (a b c : ℕ) → ltb a b ≡ false → ltb b c ≡ false → ltb a c ≡ false
ltb_chain a b c p q = ground arith

-- The score of a peer plus 100.
abbrev pub scores : Scores
scores = record {
  Score = ℕ;
  less = ltb;
  zero_score = 100;
  gossip_threshold = 0;
  less_irrefl = ltb_irrefl;
  less_chain = ltb_chain;
}

unfoldable insert : Text × ℕ → List (Text × ℕ) → List (Text × ℕ)
insert x [] = x ∷ []
insert x (y ∷ ys) = let rest = insert x ys in if ltb x.1 y.1 then x ∷ y ∷ ys else y ∷ rest

unfoldable pub sort : List (Text × ℕ) → List (Text × ℕ)
unfolding insert
sort [] = []
sort (x ∷ xs) = insert x (sort xs)

insert-Perm : (x : Text × ℕ) (ys : List (Text × ℕ)) → Perm (insert x ys) (x ∷ ys)
unfolding insert
insert-Perm x [] = Perm.refl (x ∷ [])
insert-Perm x (y ∷ ys) = elim (Bool-cases (ltb x.1 y.1)) [
  | inl e ↦ rw e (Perm.refl (x ∷ y ∷ ys))
  | inr e ↦ rw e (Perm.trans (Perm.cons y (insert-Perm x ys)) (Perm.swap x y ys))
]

pub sort-Perm : (xs : List (Text × ℕ)) → Perm (sort xs) xs
unfolding sort
sort-Perm [] = Perm.refl []
sort-Perm (x ∷ xs) = Perm.trans (insert-Perm x (sort xs)) (Perm.cons x (sort-Perm xs))

All-insert :
    (s : ℕ) (x : Text × ℕ) (ys : List (Text × ℕ))
    → ltb x.1 s ≡ false
    → All (λ q. ltb q.1 s ≡ false) ys
    → All (λ q. ltb q.1 s ≡ false) (insert x ys)
unfolding insert
All-insert s x [] p h = (p, tt)
All-insert s x (y ∷ ys) p h = elim (Bool-cases (ltb x.1 y.1)) [
  | inl e ↦ rw e (p, h)
  | inr e ↦ rw e (h.0, All-insert s x ys p h.1)
]

All-below :
    (s t : ℕ) (ys : List (Text × ℕ))
    → ltb s t ≡ true
    → All (λ q. ltb q.1 t ≡ false) ys
    → All (λ q. ltb q.1 s ≡ false) ys
All-below s t [] e h = tt
All-below s t (y ∷ ys) e h = (ground arith, All-below s t ys e h.1)

insert-IsSorted :
    (x : Text × ℕ) (ys : List (Text × ℕ)) → IsSorted scores ys → IsSorted scores (insert x ys)
unfolding insert
insert-IsSorted x [] h = (tt, tt)
insert-IsSorted x (y ∷ ys) h = elim (Bool-cases (ltb x.1 y.1)) [
  | inl e ↦ rw e ((ground arith, All-below x.1 y.1 ys e h.0), h)
  | inr e ↦ rw e (All-insert y.1 x ys e h.0, insert-IsSorted x ys h.1)
]

pub sort-IsSorted : (xs : List (Text × ℕ)) → IsSorted scores (sort xs)
unfolding sort
sort-IsSorted [] = tt
sort-IsSorted (x ∷ xs) = insert-IsSorted x (sort xs) (sort-IsSorted xs)
